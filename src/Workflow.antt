-- ===== src/Workflow.antt =====
-- packages/workflows: durable workflows with leases, retries, compensation and cancellation.
pub mod Json
pub mod Types
pub mod State
pub mod Identity
pub mod Definition
pub mod Validation
pub mod Receipts
pub mod Store
pub mod Transition
pub mod Manager
pub mod Tests
pub mod ManagerTests
pub mod RunTests
