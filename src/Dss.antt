-- ===== src/Dss.antt =====
-- The distributed state service, src/core/dss.
pub mod Lock
