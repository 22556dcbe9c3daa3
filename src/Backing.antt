-- ===== src/Backing.antt =====
-- What backs the reservations of the match finance package: the escrow accounts of the ledger hold
-- the amounts of the reservations; and what the CHECK constraints of the ledger refuse.
pub mod Escrows
pub mod Accounts
pub mod Transfers
pub mod Reserving
pub mod Held
pub mod Invariant
pub mod Entries
pub mod Releases
pub mod Refunding
pub mod Refunds
pub mod Refusals
pub mod Keeping
pub mod Absent
pub mod Settlements
pub mod Postings
pub mod History
pub mod Reconciliation
