-- ===== src/Runtime.antt =====
-- src/runtime/: the runtime that dispatches actions to their providers and reconciles what happened.
pub mod Exec
pub mod Host
pub mod Evidence
pub mod Lifecycle
pub mod Dispatch
pub mod Derive
pub mod Operations
pub mod Discipline
pub mod Budget
pub mod Authorized
pub mod Granted
pub mod Tests
