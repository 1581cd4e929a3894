-- ===== src/Cache.antt =====
-- The cache of processed elements: `FixedSizeDict` of safe_transaction_service/utils/utils.py and
-- `ElementAlreadyProcessedChecker` of
-- safe_transaction_service/history/indexers/element_already_processed_checker.py.
mod Dict
mod Processed
pub mod Keys
pub mod Recency
mod Examples
unfoldable pub use Dict.*
unfoldable pub use Processed.*
