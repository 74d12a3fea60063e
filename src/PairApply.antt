-- ===== src/PairApply.antt =====
-- app/services/pair_apply.py: apply the selected rows of a comparison, a dry run by default.
pub mod Layers
pub mod Graph
pub mod DataRoles
pub mod DasRole
pub mod Clients
pub mod Constraint
pub mod ToFabric
pub mod ToDbx
pub mod Rows
pub mod UcSql
pub mod Grant
