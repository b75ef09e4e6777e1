-- ===== src/Protocol.antt =====
-- internal/protocol: what the gateway reads of requests and of upstream streams.
pub mod Result
pub mod Sse
pub mod Usage
pub mod Observer
pub mod Scan
pub mod Request
pub mod Inspect
