-- ===== src/Task.antt =====
-- internal/task: the control plane's tasks, their state machine, retries, table and service.
pub mod Machine
pub mod Retry
pub mod Store
pub mod Idempotency
pub mod Service
