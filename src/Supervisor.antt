-- ===== src/Supervisor.antt =====
-- apps/command-supervisor: the commands that run in a sandbox.
pub mod Events
pub mod Spool
mod Examples
