-- ===== src/Examples.antt =====
-- Runs of the modelled code on small inputs, and the theorems at them.
pub mod Chunks
pub mod Versions
pub mod Backups
pub mod Uploads
pub mod Passes
pub mod Rules
pub mod Trees
pub mod Blobs
pub mod Restores
pub mod Watches
