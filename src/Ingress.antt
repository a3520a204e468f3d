-- ===== src/Ingress.antt =====
-- src/ingress: what comes into the daemon before the agent sees it.
pub mod Types
pub mod Debounce
pub mod Approval
pub mod Handling
pub mod Worker
