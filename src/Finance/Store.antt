-- ===== src/Finance/Store.antt =====
-- The tables that the match finance repositories read and write
-- (packages/match-finance/src/infrastructure), with the unique keys and the CHECK constraints of
-- packages/database/prisma/migrations/20260727180000_create_match_entry_reservations/migration.sql and
-- packages/database/prisma/migrations/20260728120000_create_match_settlements/migration.sql.
use arena_core.Prelude.{
  ℕ, Bool, true, false, not, ◌&&◌, ◌||◌, Option, List, Text, codes, text_eq, is_some, if◌then◌else◌,
}
use arena_core.Prelude.Int.{pos, leb_ℤ, eqb_ℤ}
use arena_core.Prelude.Outcome.{Outcome, ok, throw, Tx}
use arena_core.Ledger.{Ledger, Failure, LedgerTx}
use arena_core.Finance.Types.{
  MatchStatus, ResultStatus, DisputeStatus, ReservationStatus, not_required, settled, is_released,
  is_refunded, SettlementOutcome, SettlementRecord,
}
use arena_core.Finance.Requirement.{Json}
use arena_core.Finance.Reservations.{ReservationRecord}

-- A row of `match_participants`, as far as it is selected.
pub record ParticipantRow : Type 0 where
  pub participant_id : ℕ
  pub side : ℕ
  pub user_id : ℕ

pub record ResultRow : Type 0 where
  pub result_id : ℕ
  pub result_status : ResultStatus
  pub result_version : ℕ
  pub winner_participant_id : Option ℕ
  pub is_draw : Bool

pub record DisputeRow : Type 0 where
  pub dispute_id : ℕ
  pub dispute_status : DisputeStatus
  pub resolved_at : Option ℕ

-- A row of `matches`: its participants by their sides, and its disputes from the newest on.
pub record MatchRow : Type 0 where
  pub match_id : ℕ
  pub match_status : MatchStatus
  pub ruleset_configuration : Json
  pub ready_deadline_at : ℕ
  pub participants : List ParticipantRow
  pub completed_at : Option ℕ
  pub settlement_eligible_at : Option ℕ
  pub result : Option ResultRow
  pub disputes : List DisputeRow

-- A row of `match_entry_reservations`: the columns of the record, and those that no view shows.
pub record ReservationRow : Type 0 where
  pub columns : ReservationRecord
  pub open columns use *
  pub asset_code : Text
  pub wallet_id : Option ℕ
  pub ledger_account_id : Option ℕ
  pub escrow_account_id : Option ℕ
  pub settlement_id : Option ℕ
  pub settlement_outcome : Option SettlementOutcome
  pub cancelled_at : Option ℕ
  pub created_at : ℕ

pub record FinanceStore : Type 0 where
  pub ledger : Ledger
  pub matches : List MatchRow
  pub reservations : List ReservationRow
  pub settlements : List SettlementRecord

abbrev pub FinanceTx : Type 0 → Type 0 → Type 0
FinanceTx C A = Tx FinanceStore (Failure C) A

-- `(a) = (b)` of two conditions.
abbrev pub agree : Bool → Bool → Bool
agree true b = b
agree false b = not b

abbrev pub is_not_required : ReservationStatus → Bool
is_not_required not_required = true
is_not_required _ = false

abbrev pub is_settled : ReservationStatus → Bool
is_settled settled = true
is_settled _ = false

abbrev pub is_cancelled : ReservationStatus → Bool
is_cancelled ReservationStatus.cancelled = true
is_cancelled _ = false

-- `match_entry_reservations_required_fields_check`.
unfoldable pub required_fields_check : ReservationRow → Bool
required_fields_check r =
    if is_not_required r.status
    then eqb_ℤ r.amount (pos 0)
      && not (is_some r.wallet_id)
      && not (is_some r.ledger_account_id)
      && not (is_some r.escrow_account_id)
      && not (is_some r.ledger_transaction_id)
      && not (is_some r.reserved_at)
    else leb_ℤ (pos 1) r.amount
      && is_some r.wallet_id
      && is_some r.ledger_account_id
      && is_some r.escrow_account_id
      && is_some r.ledger_transaction_id
      && is_some r.reserved_at

-- The checks that tie the dates and the refund's transaction to the status.
unfoldable pub status_checks : ReservationRow → Bool
status_checks r =
    agree (is_released r.status) (is_some r.released_at)
    && agree (is_refunded r.status) (is_some r.refunded_at)
    && agree (is_refunded r.status) (is_some r.refund_ledger_transaction_id)
    && agree (is_cancelled r.status) (is_some r.cancelled_at)

-- `match_entry_reservations_settlement_state_check`.
unfoldable pub settlement_state_check : ReservationRow → Bool
settlement_state_check r =
    (not (is_some r.settlement_id) && not (is_some r.settlement_outcome))
    || (is_some r.settlement_id
        && is_some r.settlement_outcome
        && (is_settled r.status || is_refunded r.status))

-- All CHECK constraints of a row, but those on the form of the fingerprint and the snapshots.
unfoldable pub satisfies_checks : ReservationRow → Bool
satisfies_checks r =
    text_eq r.asset_code (codes "ARENA_POINT")
    && leb_ℤ (pos 0) r.amount
    && required_fields_check r
    && status_checks r
    && settlement_state_check r

-- An adapter's calls in the transaction that is active (`PrismaMatchFinanceTransactionManager`).
unfoldable pub with_ledger :
    {E A : Type 0} → FinanceStore → Outcome E (A × Ledger) → Outcome E (A × FinanceStore)
with_ledger s (ok (a, l)) = ok (a, record s { ledger = l })
with_ledger s (throw e) = throw e

abbrev pub on_ledger : {C A : Type 0} → LedgerTx C A → FinanceTx C A
on_ledger m s = with_ledger s (m s.ledger)
