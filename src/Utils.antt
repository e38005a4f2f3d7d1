-- ===== src/Utils.antt =====
-- The host programs of utils/.
pub mod Mkfs
