-- ===== src/Discovery.antt =====
-- permission-sync/src/discovery: the permissions that a platform reports. A discovery asks the
-- identity resolver, whose cache it hands on.
pub mod Found
pub mod UnityCatalog
pub mod Fabric
pub mod Snowflake
