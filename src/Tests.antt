-- ===== src/Tests.antt =====
-- A small configuration with two providers, and runs of the model on it.
mod Data
mod Run
mod Routing
mod Selection
mod Leases
mod Retries
mod Configs
mod Records
mod Streams
mod Jobs
mod Vaults
