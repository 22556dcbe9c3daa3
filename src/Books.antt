-- ===== src/Books.antt =====
-- The invariant of the books: what the ledger tables satisfy between two transactions, and that
-- each operation of the wallet and of the match finance packages keeps it.
pub mod Sums
pub mod Invariant
pub mod Tables
pub mod Rows
pub mod Steps
pub mod Movement
pub mod Posting
pub mod Entries
pub mod Writes
pub mod Reversal
pub mod Escrow
pub mod Settlement
pub mod Payout
pub mod Distribution
pub mod Storable
pub mod Success
pub mod Commit
pub mod History
pub mod Services
