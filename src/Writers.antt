-- ===== src/Writers.antt =====
-- permission-sync/src/writers: which Fabric layer to write, and the three writers.
pub mod Planner
pub mod Fabric
pub mod UnityCatalog
pub mod Snowflake
