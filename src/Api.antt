-- ===== src/Api.antt =====
-- internal/api: the part of the server that decides on retries.
pub mod Attempts
pub mod Stream
pub mod Jobs
pub mod Operations
pub mod Ingress
pub mod Budget
