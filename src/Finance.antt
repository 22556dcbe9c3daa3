-- ===== src/Finance.antt =====
-- packages/match-finance: the data, the ledger adapters, and the policies on settlements and entries.
pub mod Types
pub mod Adapter
pub mod Eligibility
pub mod Evaluation
pub mod Requirement
pub mod Reservations
pub mod Store
pub mod Repository
pub mod Writes
pub mod Entries
pub mod Refunds
pub mod Contexts
pub mod Closing
pub mod Settlements
