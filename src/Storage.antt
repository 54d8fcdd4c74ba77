-- ===== src/Storage.antt =====
-- internal/storage: what the bot keeps on disk.
pub mod Store
