-- ===== src/Scripting.antt =====
-- src/scripting: the host of the scripts.
pub mod Safety
