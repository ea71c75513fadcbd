-- ===== src/Tests.antt =====
-- Runs on concrete inputs: a witness for each theorem with hypotheses, and tests.
pub mod Sample
pub mod Plans
pub mod Live
pub mod Settings
pub mod Upgrades
pub mod Strategies
pub mod Autodetects
pub mod Injections
pub mod Controllers
