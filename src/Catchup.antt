-- ===== src/Catchup.antt =====
-- The hourly catch-up of the daily analytics (safe_transaction_service/analytics/catchup/).
--
-- Times are seconds since the epoch, days are days since the epoch.
mod Settings
mod States
mod Gate
mod Day
mod Sweep
mod Stuck
pub mod Backoff
pub mod Schedule
pub mod Count
pub mod Room
pub mod Attempts
pub mod Bounded
pub mod Spent
pub mod Selection
pub mod Steady
pub mod Once
mod Examples
unfoldable pub use Settings.*
unfoldable pub use States.*
unfoldable pub use Gate.*
unfoldable pub use Day.*
unfoldable pub use Sweep.*
unfoldable pub use Stuck.*
