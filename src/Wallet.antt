-- ===== src/Wallet.antt =====
-- The wallet of src/wallet: its ledger, and the operations of src/wallet/api/api.rs on it.
pub mod Ledger
pub mod Library
pub mod Session
pub mod Merge
pub mod Bulk
pub mod Scan
pub mod Totals
mod Tests
