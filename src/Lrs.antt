-- ===== src/Lrs.antt =====
-- The local resource scheduler, src/lrs.
pub mod ReadMedia
pub mod Sync
pub mod Flush
pub mod IoSched
