-- ===== src/Workflow.antt =====
-- workflow-service (services/workflow-service/src/workflow_service) and the message contracts of
-- packages/shared/src/mwp_common/workflow_contracts.py.
mod Status
mod Types
mod Contracts
mod External
mod System
pub mod Upstream
pub mod Repository
pub mod Worker
pub mod Service
pub mod Requests
pub mod Starts
pub mod PaymentRequests
pub use Status.*
pub use Types.*
pub use Contracts.*
pub use External.*
pub use System.*
pub mod Tests
