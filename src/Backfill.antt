-- ===== src/Backfill.antt =====
-- The runs of the daily backfill: safe_transaction_service/analytics/tasks_shards.py.
mod Manifest
mod Chain
mod Worker
pub mod Split
pub mod Ends
pub mod Quiet
mod Examples
unfoldable pub use Manifest.*
unfoldable pub use Chain.*
unfoldable pub use Worker.*
