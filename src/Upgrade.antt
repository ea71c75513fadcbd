-- ===== src/Upgrade.antt =====
-- Upgrades of Jaeger instances to the operator's version (pkg/upgrade).
pub mod Migrate
pub mod Changes
pub mod Steps
pub mod Table
pub mod Instance
