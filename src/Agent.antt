-- ===== src/Agent.antt =====
-- src/agent: the agent that the messages reach.
pub mod LlmError
pub mod Client
pub mod Json
pub mod Messages
pub mod Session
pub mod SessionStore
pub mod Sanitize
pub mod ToolExecutor
pub mod ToolPath
pub mod Tools
pub mod SessionManager
pub mod DiskMonitor
pub mod Providers
pub mod Skills
pub mod Action
pub mod ChatEngine
