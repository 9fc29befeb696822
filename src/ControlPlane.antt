-- ===== src/ControlPlane.antt =====
-- apps/control-plane-go: Leases on sandboxes.
pub mod Lease
pub mod Commands
pub mod Tokens
pub mod Cursors
pub mod Buffers
pub mod Transfers
pub mod Cluster
pub mod Claims
pub mod Acquire
pub mod Requests
pub mod Listing
pub mod Options
pub mod Markers
pub mod Streams
mod Examples
