-- ===== src/SafeTx/Removed.antt =====
-- Removing an owner: `swap_owner` and the branch of `removeOwner`
-- (safe_transaction_service/history/indexers/tx_processor.py).
