-- ===== src/Cache.antt =====
-- The caches of verified data, in memory and on disk.
pub mod PieceCache
pub mod DiskCache
