-- ===== src/Translation.antt =====
-- permission-sync/src/translation: privilege names and identities.
pub mod Normalizer
pub mod Identity
