-- ===== src/FineGrained.antt =====
-- app/services/fine_grained_policy.py: row filters and column masks of Unity Catalog as constraints
-- of OneLake data access roles.
pub mod Scope
pub mod Predicate
pub mod Columns
pub mod Rows
