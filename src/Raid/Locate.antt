-- ===== src/Raid/Locate.antt =====
-- The generic locate of RAID layouts: src/layout/raid_common_locate.c.
pub mod Splits
pub mod Hosts
pub mod Extents
pub mod Choice
pub mod Locks
pub mod Run
pub mod LockTable
pub mod LockSound
pub mod Sound
pub mod Keeps
mod Examples
