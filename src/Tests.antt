-- ===== src/Tests.antt =====
-- Runs on concrete data, and the theorems at inputs that meet their hypotheses.
mod Data
mod Sync
mod HubData
mod Hub
mod WebData
mod Web
mod FineGrained
mod Abac
mod UcSql
mod Constraints
mod DiscoveryData
mod Discovery
