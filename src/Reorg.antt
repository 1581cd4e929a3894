-- ===== src/Reorg.antt =====
-- `ReorgService` of safe_transaction_service/history/services/reorg_service.py: it compares the stored
-- blocks with the chain, and resets the indexing when the chain was reorganised.
mod Database
mod Check
mod Recover
pub mod Order
pub mod Detect
pub mod Confirm
pub mod Reset
mod Examples
unfoldable pub use Database.*
unfoldable pub use Check.*
unfoldable pub use Recover.*
