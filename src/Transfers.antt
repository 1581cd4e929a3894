-- ===== src/Transfers.antt =====
-- The ids of transfers: safe_transaction_service/history/helpers.py, serializers.py, views.py and models.py.
mod Text
mod Ids
pub mod Digits
pub mod Found
mod Examples
unfoldable pub use Text.*
unfoldable pub use Ids.*
