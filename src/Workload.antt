-- ===== src/Workload.antt =====
-- apps/workload-router: the capability-authenticated data plane for exposed workloads.
pub mod Host
pub mod Registry
pub mod Headers
pub mod Resolver
pub mod Redirects
pub mod Router
mod Examples
