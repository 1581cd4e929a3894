-- ===== src/Bootstrap.antt =====
-- The bootstrap of the analytics: safe_transaction_service/analytics/bootstrap/.
mod Rows
mod Check
mod Tick
mod Report
mod Daily
pub mod Lookup
pub mod Decide
pub mod Capped
pub mod GivesUp
pub mod Terminal
pub mod InOrder
pub mod Steps
pub mod Window
pub mod Replaced
pub mod Complete
mod Examples
unfoldable pub use Rows.*
unfoldable pub use Check.*
unfoldable pub use Tick.*
unfoldable pub use Report.*
unfoldable pub use Daily.*
