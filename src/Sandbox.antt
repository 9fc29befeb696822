-- ===== src/Sandbox.antt =====
-- images/runtime: the programs inside a sandbox.
pub mod Helper
mod Examples
