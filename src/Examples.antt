-- ===== src/Examples.antt =====
-- Concrete runs at which the theorems of the library apply.
pub mod Debounce
pub mod Engine
pub mod Models
pub mod Providers
pub mod Client
pub mod Session
pub mod Stores
pub mod Executor
pub mod Files
pub mod Texts
pub mod Guards
pub mod Approvals
pub mod Compaction
pub mod Logs
pub mod Tools
pub mod Handling
