-- ===== src/Finance/Writes.antt =====
-- The writes of `PrismaMatchFinanceRepository`
-- (packages/match-finance/src/infrastructure/prisma-match-finance-repository.ts).
use arena_core.Prelude.{
  ℕ, Bool, not, ◌&&◌, ◌||◌, Option, none, some, List, [], ◌∷◌, Text, codes, text_eq, ◌==◌,
  if◌then◌else◌, any, all,
}
use arena_core.Prelude.Int.{ℤ}
use arena_core.Prelude.Outcome.{Outcome, ok, throw, gets, modify, throw_if, or_throw, ◌>>=◌, ◌>>◌}
use arena_core.Ledger.{coded, unique_violation, record_not_found, check_violation}
use arena_core.Finance.Types.{
  FinanceError, ReservationStatus, reserved, released, refunded, match_finance_persistence_failure,
  is_reserved,
}
use arena_core.Finance.Reservations.{ReservationRecord}
use arena_core.Finance.Store.{ReservationRow, FinanceStore, FinanceTx, satisfies_checks}
use arena_core.Finance.Repository.{
  FinanceContext, RepositoryTx, map_row, row_by_id, of_participant, list_match,
}

-- `CreateReservationInput`.
pub record CreateReservationInput : Type 0 where
  pub id : ℕ
  pub context : FinanceContext
  pub amount : ℤ
  pub status : ReservationStatus
  pub wallet_id : Option ℕ
  pub ledger_account_id : Option ℕ
  pub escrow_account_id : Option ℕ
  pub ledger_transaction_id : Option ℕ
  pub idempotency_key : Text
  pub request_fingerprint : Text
  pub now : ℕ
  pub expires_at : ℕ

-- A write of the table, which a row that breaks a CHECK makes the database refuse.
unfoldable pub put_rows : {C : Type 0} → List ReservationRow → FinanceTx C (Unit {0})
put_rows rows = do
  throw_if (not (all satisfies_checks rows)) check_violation
  modify (λ s. record s { reservations = rows })

-- The rows, the ones that pass the test rewritten.
unfoldable pub rewrite_rows :
    (ReservationRow → Bool)
    → (ReservationRow → ReservationRow)
    → List ReservationRow
    → List ReservationRow
rewrite_rows test f [] = []
rewrite_rows test f (r ∷ rows) =
    let rest = rewrite_rows test f rows in (if test r then f r else r) ∷ rest

abbrev reserved_at_of : ReservationStatus → ℕ → Option ℕ
reserved_at_of reserved now = some now
reserved_at_of _ now = none

-- The row that `create` inserts.
unfoldable pub new_row : CreateReservationInput → ReservationRow
new_row input = record {
  columns = record {
    id = input.id;
    match_id = input.context.match_id;
    participant_id = input.context.participant_id;
    user_id = input.context.user_id;
    amount = input.amount;
    status = input.status;
    ledger_transaction_id = input.ledger_transaction_id;
    refund_ledger_transaction_id = none;
    idempotency_key = input.idempotency_key;
    request_fingerprint = input.request_fingerprint;
    reserved_at = reserved_at_of input.status input.now;
    released_at = none;
    refunded_at = none;
    expires_at = input.expires_at;
  };
  asset_code = codes "ARENA_POINT";
  wallet_id = input.wallet_id;
  ledger_account_id = input.ledger_account_id;
  escrow_account_id = input.escrow_account_id;
  settlement_id = none;
  settlement_outcome = none;
  cancelled_at = none;
  created_at = input.now;
}

-- The primary key, and the unique keys on (match, participant) and on the idempotency key.
abbrev pub takes_key_of : ReservationRow → ReservationRow → Bool
takes_key_of row r =
    r.id == row.id
    || of_participant row.match_id row.participant_id r
    || text_eq r.idempotency_key row.idempotency_key

unfoldable pub insert_row : ReservationRow → RepositoryTx ReservationRecord
insert_row row = do
  taken ← gets (λ s. any (takes_key_of row) s.reservations)
  throw_if taken unique_violation
  rows ← gets (λ (s : FinanceStore). s.reservations)
  put_rows (row ∷ rows)
  map_row row

-- `.catch(() => { throw new MatchFinanceError('MATCH_FINANCE_PERSISTENCE_FAILURE') })`.
unfoldable pub persisted :
    {A : Type 0} → Outcome FinanceError (A × FinanceStore) → Outcome FinanceError (A × FinanceStore)
persisted (ok r) = ok r
persisted (throw e) = throw (coded match_finance_persistence_failure)

-- `create`.
unfoldable pub create : CreateReservationInput → RepositoryTx ReservationRecord
create input s = persisted (insert_row (new_row input) s)

abbrev pub is_reserved_of : ℕ → ReservationRow → Bool
is_reserved_of match_id r = r.match_id == match_id && is_reserved r.status

abbrev pub released_row : ℕ → ReservationRow → ReservationRow
released_row now r = record r {
  columns = record r.columns { status = released; released_at = some now };
}

unfoldable pub release_match : ℕ → ℕ → RepositoryTx (List ReservationRecord)
release_match match_id now = do
  rows ← gets (λ (s : FinanceStore). s.reservations)
  put_rows (rewrite_rows (is_reserved_of match_id) (released_row now) rows)
  list_match match_id 100

abbrev pub refunded_row : ℕ → ℕ → ReservationRow → ReservationRow
refunded_row transaction_id now r = record r {
  columns = record r.columns {
    status = refunded;
    refund_ledger_transaction_id = some transaction_id;
    refunded_at = some now;
  };
}

-- `markRefunded`, whose `update` asks for a reserved row with the identifier.
unfoldable pub mark_refunded : ℕ → ℕ → ℕ → RepositoryTx ReservationRecord
mark_refunded reservation_id transaction_id now = do
  row ← gets (λ s. row_by_id reservation_id s.reservations)
  found ← or_throw row record_not_found
  throw_if (not (is_reserved found.status)) record_not_found
  rows ← gets (λ (s : FinanceStore). s.reservations)
  put_rows (
      rewrite_rows (λ (r : ReservationRow). r.id == reservation_id)
        (refunded_row transaction_id now) rows)
  map_row (refunded_row transaction_id now found)
