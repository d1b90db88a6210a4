-- ===== src/Raid.antt =====
-- The RAID layouts of src/layout: the host to read from, the splits to rebuild and the sizes of
-- extents.
pub mod Locate
mod Rebuild
mod Sizes
mod Parity
