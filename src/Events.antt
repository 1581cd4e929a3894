-- ===== src/Events.antt =====
-- The queue of events: safe_transaction_service/events/services/queue_service.py.
mod Broker
mod Queue
pub mod Outbox
pub mod Confirms
pub mod Ready
pub mod Refines
pub mod Pool
pub mod Drain
mod Examples
unfoldable pub use Broker.*
unfoldable pub use Queue.*
