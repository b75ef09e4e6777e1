-- ===== src/Routing.antt =====
-- internal/routing: the router, its shared capacity and its leases.
pub mod Types
pub mod Eligible
pub mod Preferences
pub mod Pools
pub mod Choose
pub mod Heap
pub mod Compile
pub mod Queue
pub mod Acquire
pub mod Events
pub mod Release
pub mod Adopt
pub mod Explain
pub mod Output
pub mod Traces
