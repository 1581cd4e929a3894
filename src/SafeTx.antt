-- ===== src/SafeTx.antt =====
-- `SafeTxProcessor` of safe_transaction_service/history/indexers/tx_processor.py: from decoded internal
-- transactions to the state of the Safes.
mod Types
mod Logs
mod Queries
mod Binding
mod Last
mod Execution
mod Callers
mod Process
pub mod Batch
pub mod Isolation
pub mod Rows
pub mod Separate
pub mod Untouched
pub mod Versions
pub mod Executed
pub mod Advanced
pub mod Removed
pub mod Recorded
pub mod Coherent
pub mod Alone
mod Examples
unfoldable pub use Types.*
unfoldable pub use Logs.*
unfoldable pub use Queries.*
unfoldable pub use Binding.*
unfoldable pub use Last.*
unfoldable pub use Execution.*
unfoldable pub use Callers.*
unfoldable pub use Process.*
