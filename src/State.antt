-- ===== src/State.antt =====
-- src/state: what the running program keeps.
pub mod Sessions
