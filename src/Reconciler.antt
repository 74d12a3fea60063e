-- ===== src/Reconciler.antt =====
-- permission-sync/src/reconciler: what has to be granted and revoked, and who wins a conflict.
pub mod Diff
pub mod Resolver
