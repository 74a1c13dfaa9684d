-- ===== src/Csd.antt =====
-- Capper shared disk (internal/csd): leases, fencing, elections, frames and the bytes of files.
pub mod Lease
pub mod Election
pub mod Fence
pub mod Protocol
pub mod Extents
pub mod Metadata
