-- ===== src/Ledger.antt =====
-- The ledger tables that the wallet and the match finance packages share
-- (packages/wallet/src/domain/wallet-types.ts, packages/database/prisma/migrations/
-- 20260727100000_create_wallet_ledger/migration.sql): rows and queries.
mod Types
mod Checks
mod Queries
unfoldable pub use Types.*
unfoldable pub use Checks.*
unfoldable pub use Queries.*
