-- ===== src/Tests.antt =====
-- A sample database, runs of the methods on it, and the theorems at concrete inputs.
mod Sample
mod Runs
mod MemoryRedis
mod Services
mod Pages
mod Catalogue
mod Tagging
mod Files
mod Deliveries
mod Sessions
mod Examples
