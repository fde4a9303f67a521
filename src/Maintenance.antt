-- ===== src/Maintenance.antt =====
-- internal/server/maintenance: which snapshots are kept (`Plan`), how the others are removed and
-- how chunks without a reference are collected (`Pass`).
pub mod Plan
pub mod Pass
