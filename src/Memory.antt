-- ===== src/Memory.antt =====
-- src/memory: the agent's memory on disk and its index.
pub mod Chunks
