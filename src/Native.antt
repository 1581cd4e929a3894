-- ===== src/Native.antt =====
-- The backfill of the native balances: safe_transaction_service/analytics/tasks_shards.py, with the pages and
-- rows of analytics/tasks.py.
mod Rollup
mod Chunk
pub mod Single
pub mod Effects
pub mod Chain
pub mod Steps
mod Rows
pub mod Covered
pub mod Seeded
pub mod Complete
mod Examples
unfoldable pub use Rollup.*
unfoldable pub use Chunk.*
