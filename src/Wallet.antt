-- ===== src/Wallet.antt =====
-- The wallet package (packages/wallet/src): amounts and policies, the repository's transactions
-- on the ledger tables, and the services before it.
pub mod Policies
pub mod Amount
pub mod Fingerprint
pub mod Repository
pub mod Posting
pub mod Service
