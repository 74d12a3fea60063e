-- ===== src/Abac.antt =====
-- app/services/abac_resolver.py: policies by governed tags and the tables they resolve to.
pub mod Condition
pub mod Parse
pub mod Resolve
