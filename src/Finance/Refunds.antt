-- ===== src/Finance/Refunds.antt =====
-- `AdminMatchFinanceService`
-- (packages/match-finance/src/application/admin-match-finance-service.ts), with `refund` and
-- `reconcileMatchEscrow` of packages/match-finance/src/infrastructure/wallet-ledger-adapter.ts.
use mathlib.Core.Option
use arena_core.Prelude.{
  ℕ, Bool, true, false, not, ◌&&◌, ◌||◌, Option, none, some, List, [], ◌∷◌, ◌++◌, map, Text, codes,
  if◌then◌else◌, length,
}
use arena_core.Prelude.Int.{ℤ, pos, ◌+ℤ◌, ◌-ℤ◌, eqb_ℤ}
use arena_core.Prelude.Outcome.{pure, gets, throw_if, ◌>>=◌, ◌>>◌}
use arena_core.Ledger.{coded, Platform, Ledger}
use arena_core.Finance.Types.{
  MatchStatus, match_cancelled, match_expired, voided, is_reserved, is_released,
  match_entry_reservation_refund_not_allowed,
}
use arena_core.Finance.Adapter.{RefundLedgerInput, RefundableRow, refund, get_escrow_balance}
use arena_core.Finance.Reservations.{
  ReservationRecord, ReservationView, to_reservation_view, reservation_fingerprint, refunding_entry,
}
use arena_core.Finance.Store.{ReservationRow, on_ledger}
use arena_core.Finance.Repository.{
  RepositoryTx, row_by_id, get_match_status, list_match, list_refundable,
}
use arena_core.Finance.Writes.{mark_refunded, release_match}
use arena_core.Finance.Entries.{clamped_limit}

-- `MatchFinanceRefundReason`.
pub data RefundReason : Type 0 where
  for_cancelled_match for_expired_match for_match_voided_before_start : RefundReason
  operational_recovery other_reason : RefundReason

abbrev pub is_operational : RefundReason → Bool
is_operational operational_recovery = true
is_operational _ = false

-- The input of `refund`, without the note, which it drops.
pub record AdminRefundInput : Type 0 where
  pub match_id : ℕ
  pub actor_user_id : ℕ
  pub idempotency_key : Text
  pub reason_code : RefundReason
  pub limit : Option ℕ

-- `['CANCELLED', 'EXPIRED', 'VOIDED'].includes(status ?? '')`.
abbrev pub is_called_off : Option MatchStatus → Bool
is_called_off (some match_cancelled) = true
is_called_off (some match_expired) = true
is_called_off (some voided) = true
is_called_off _ = false

abbrev limit_or_ten : Option ℕ → ℕ
limit_or_ten none = 10
limit_or_ten (some n) = n

-- The columns that the adapter selects of the reservation.
abbrev pub refundable_row : ReservationRow → RefundableRow
refundable_row row = record {
  ledger_account_id = row.ledger_account_id;
  escrow_account_id = row.escrow_account_id;
  status = row.status;
}

-- The call of the adapter: it looks up the reservation in the same transaction.
unfoldable pub refund_posting : Platform → RefundLedgerInput → RepositoryTx ℕ
refund_posting g input s =
    on_ledger
      (refund g (Option.map refundable_row (row_by_id input.reservation_id s.reservations)) input) s

abbrev pub refund_input : Platform → ℕ → AdminRefundInput → ReservationRecord → RefundLedgerInput
refund_input g now input reservation = record {
  reserve = record {
    match_id = reservation.match_id;
    participant_id = reservation.participant_id;
    user_id = reservation.user_id;
    amount = reservation.amount;
    idempotency_key =
        codes "ledger:" ++ (input.idempotency_key ++ (codes ":" ++ g.uuid_text reservation.id));
    fingerprint =
        reservation_fingerprint g reservation.match_id reservation.participant_id
          reservation.user_id reservation.amount refunding_entry;
    now = now;
  };
  reservation_id = reservation.id;
  actor_user_id = input.actor_user_id;
}

-- One round of the loop.
unfoldable pub refund_one :
    Platform → ℕ → AdminRefundInput → ReservationRecord → RepositoryTx ReservationRecord
refund_one g now input reservation = do
  throw_if (not (is_reserved reservation.status)) (coded match_entry_reservation_refund_not_allowed)
  transaction_id ← refund_posting g (refund_input g now input reservation)
  mark_refunded reservation.id transaction_id now

unfoldable pub refund_all :
    Platform → ℕ → AdminRefundInput → List ReservationRecord → RepositoryTx (List ReservationRecord)
refund_all g now input [] = pure []
refund_all g now input (r ∷ rs) = do
  refunded_one ← refund_one g now input r
  rest ← refund_all g now input rs
  pure (refunded_one ∷ rest)

-- `refund`, at the time of the clock.
unfoldable pub refund_match : Platform → ℕ → AdminRefundInput → RepositoryTx (List ReservationView)
refund_match g now input = do
  status ← gets (get_match_status input.match_id)
  throw_if (not (is_operational input.reason_code) && not (is_called_off status))
      (coded match_entry_reservation_refund_not_allowed)
  rows ← list_refundable input.match_id (clamped_limit (limit_or_ten input.limit))
  results ← refund_all g now input rows
  pure (map to_reservation_view results)

-- `listMatch` and `release`.
unfoldable pub list_match_entries : ℕ → ℕ → RepositoryTx (List ReservationView)
list_match_entries match_id limit = do
  rows ← list_match match_id (clamped_limit limit)
  pure (map to_reservation_view rows)

unfoldable pub release_by_admin : ℕ → ℕ → RepositoryTx (List ReservationView)
release_by_admin now match_id = do
  rows ← release_match match_id now
  pure (map to_reservation_view rows)

-- `MatchEscrowReconciliationResult`.
pub record EscrowReconciliation : Type 0 where
  pub consistent : Bool
  pub escrow_balance : ℤ
  pub expected_balance : ℤ
  pub difference : ℤ
  pub reservation_count : ℕ

-- `reconcileMatchEscrow`.
unfoldable pub reconcile_match_escrow : ℕ → ℤ → ℕ → Ledger → EscrowReconciliation
reconcile_match_escrow match_id expected count l = record {
  consistent = eqb_ℤ (get_escrow_balance match_id l) expected;
  escrow_balance = get_escrow_balance match_id l;
  expected_balance = expected;
  difference = get_escrow_balance match_id l -ℤ expected;
  reservation_count = count;
}

abbrev is_held_record : ReservationRecord → Bool
is_held_record r = is_reserved r.status || is_released r.status

-- `reduce((sum, row) => sum + row.amount, 0n)`.
unfoldable pub total_held : List ReservationRecord → ℤ
total_held [] = pos 0
total_held (r ∷ rs) = if is_held_record r then r.amount +ℤ total_held rs else total_held rs

-- `reconcile`.
unfoldable pub reconcile_entries : ℕ → RepositoryTx EscrowReconciliation
reconcile_entries match_id = do
  rows ← list_match match_id 100
  gets (λ s. reconcile_match_escrow match_id (total_held rows) (length rows) s.ledger)
