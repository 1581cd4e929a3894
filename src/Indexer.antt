-- ===== src/Indexer.antt =====
-- `EthereumIndexer` of safe_transaction_service/history/indexers/ethereum_indexer.py: which blocks an
-- indexer scans for its monitored addresses, and how far each address is known to be scanned.
--
-- A monitored address carries its `database_field`, the next block to scan. The parameters of the
-- constructor are natural numbers. A difference of block numbers that can be below zero is an
-- integer, or is compared with the subtracted part on the other side.
mod Database
mod Window
mod Limit
mod Process
mod Start
pub mod Bounds
pub mod Tuning
pub mod Monitor
pub mod Progress
pub mod Sync
pub mod Complete
pub mod Failure
mod Examples
unfoldable pub use Database.*
unfoldable pub use Window.*
unfoldable pub use Limit.*
unfoldable pub use Process.*
unfoldable pub use Start.*
