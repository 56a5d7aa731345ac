-- ===== src/Workflow/Worker.antt =====
-- services/workflow-service/src/workflow_service/worker.py: the saga of an order's checkout.
mod Calls
mod Checkout
mod Payment
mod Delivery
mod Process
pub mod Keeps
pub mod Frame
pub mod Touches
pub mod Isolation
pub mod Ends
pub mod Endings
pub mod Outcome
pub mod Books
pub mod HandlerBooks
pub mod Bookkeeping
pub mod Recorded
pub mod Failed
pub mod Tests
pub use Calls.*
pub use Checkout.*
pub use Payment.*
pub use Delivery.*
pub use Process.*
