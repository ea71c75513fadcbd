-- ===== src/Util.antt =====
-- The helpers of pkg/util.
pub mod Ports
pub mod Text
pub mod Args
pub mod Dedup
pub mod Merge
