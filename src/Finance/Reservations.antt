-- ===== src/Finance/Reservations.antt =====
-- A reservation of a match entry: its view and its checks
-- (packages/match-finance/src/domain/match-entry-policies.ts), and the fingerprints of the requests
-- (packages/match-finance/src/domain/reservation-policies.ts and match-settlement-policies.ts).
use arena_core.Prelude.{
  ℕ, not, ◌||◌, Option, none, some, [], ◌∷◌, Text, codes, join, leb, if◌then◌else◌, Bool, true,
  false,
}
use arena_core.Prelude.Int.{ℤ}
use arena_core.Prelude.Outcome.{Outcome, ok, throw}
use arena_core.Ledger.{Platform, coded}
use arena_core.Wallet.Amount.{serialize_wallet_amount}
use arena_core.Finance.Types.{
  FinanceError, ReservationStatus, reserved, released, not_required,
  match_entry_reservation_state_invalid,
}

-- `MatchEntryReservationRecord`, without its two snapshots.
pub record ReservationRecord : Type 0 where
  pub id : ℕ
  pub match_id : ℕ
  pub participant_id : ℕ
  pub user_id : ℕ
  pub amount : ℤ
  pub status : ReservationStatus
  pub ledger_transaction_id : Option ℕ
  pub refund_ledger_transaction_id : Option ℕ
  pub idempotency_key : Text
  pub request_fingerprint : Text
  pub reserved_at : Option ℕ
  pub released_at : Option ℕ
  pub refunded_at : Option ℕ
  pub expires_at : ℕ

-- `MatchEntryReservationView`.
pub record ReservationView : Type 0 where
  pub match_id : ℕ
  pub status : ReservationStatus
  pub amount : Text
  pub reserved_at : Option ℕ
  pub released_at : Option ℕ
  pub refunded_at : Option ℕ

unfoldable pub to_reservation_view : ReservationRecord → ReservationView
to_reservation_view reservation = record {
  match_id = reservation.match_id;
  status = reservation.status;
  amount = serialize_wallet_amount reservation.amount;
  reserved_at = reservation.reserved_at;
  released_at = reservation.released_at;
  refunded_at = reservation.refunded_at;
}

abbrev pub satisfies_entry : ReservationStatus → Bool
satisfies_entry not_required = true
satisfies_entry reserved = true
satisfies_entry released = true
satisfies_entry _ = false

-- `assertEntrySatisfied`, at the time `now`.
unfoldable pub assert_entry_satisfied :
    Option ReservationRecord → ℕ → Outcome FinanceError (Unit {0})
assert_entry_satisfied none now = throw (coded match_entry_reservation_state_invalid)
assert_entry_satisfied (some reservation) now =
    if not (satisfies_entry reservation.status) || leb reservation.expires_at now
    then throw (coded match_entry_reservation_state_invalid)
    else ok tt

pub data ReservationOperation : Type 0 where
  reserving_entry refunding_entry : ReservationOperation

abbrev operation_name : ReservationOperation → Text
operation_name reserving_entry = codes "RESERVE"
operation_name refunding_entry = codes "REFUND"

unfoldable pub reservation_fingerprint : Platform → ℕ → ℕ → ℕ → ℤ → ReservationOperation → Text
reservation_fingerprint g match_id participant_id user_id amount operation = g.sha256 (
    join (codes "|") (
      operation_name operation
      ∷ g.uuid_text match_id
      ∷ g.uuid_text participant_id
      ∷ g.uuid_text user_id
      ∷ codes "ARENA_POINT"
      ∷ serialize_wallet_amount amount
      ∷ []))
