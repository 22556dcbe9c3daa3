-- ===== src/Backing/Absent.antt =====
-- The histories of the ledger (Books/History) under the CHECK constraints of
-- packages/database/prisma/migrations/20260727100000_create_wallet_ledger: no row of a match in the tables.
use arena_core.Prelude.Outcome.{Outcome}
use arena_core.Ledger.{Ledger}
