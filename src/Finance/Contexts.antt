-- ===== src/Finance/Contexts.antt =====
-- The queries of `PrismaMatchSettlementRepository`
-- (packages/match-finance/src/infrastructure/prisma-match-settlement-repository.ts).
use mathlib.Core.Option
use arena_core.Prelude.{
  ℕ, Bool, true, false, not, Option, none, some, List, [], ◌∷◌, map, Text, text_eq, ◌==◌, leb, find,
  any, keep, sort_by, is_some,
}
use arena_core.Prelude.Int.{ℤ, pos}
use arena_core.Ledger.{account_by_id}
use arena_core.Finance.Types.{
  open_dispute, awaiting_response, under_review, SettlementContext, SettlementReservation,
  SettlementRecord, MatchSettlementErrorCode,
}
use arena_core.Finance.Store.{
  ResultRow, DisputeRow, MatchRow, ReservationRow, FinanceStore, FinanceTx,
}
use arena_core.Finance.Repository.{match_by_id}

abbrev pub SettlementServiceTx : Type 0 → Type 0
SettlementServiceTx A = FinanceTx MatchSettlementErrorCode A

-- `['OPEN', 'AWAITING_RESPONSE', 'UNDER_REVIEW'].includes(status)`; the others are terminal.
abbrev pub is_active_dispute : DisputeRow → Bool
is_active_dispute d = elim d.dispute_status [
  | open_dispute ↦ true
  | awaiting_response ↦ true
  | under_review ↦ true
  | _ ↦ false
]

abbrev pub settlement_reservation : ReservationRow → SettlementReservation
settlement_reservation row = record {
  id = row.id;
  participant_id = row.participant_id;
  user_id = row.user_id;
  ledger_account_id = row.ledger_account_id;
  escrow_account_id = row.escrow_account_id;
  asset_code = row.asset_code;
  amount = row.amount;
  status = row.status;
}

-- `entryReservations` by the participants' identifiers.
unfoldable pub entry_reservations : ℕ → FinanceStore → List ReservationRow
entry_reservations match_id s =
    sort_by (λ (a b : ReservationRow). leb a.participant_id b.participant_id)
      (keep (λ (r : ReservationRow). r.match_id == match_id) s.reservations)

-- `find((item) => item.escrowAccountId)?.escrowAccountId`.
unfoldable pub first_escrow_account : List ReservationRow → Option ℕ
first_escrow_account [] = none
first_escrow_account (r ∷ rs) = elim r.escrow_account_id [
  | none ↦ first_escrow_account rs
  | some a ↦ some a
]

abbrev balance_or_zero : Option ℕ → FinanceStore → ℤ
balance_or_zero none s = pos 0
balance_or_zero (some id) s = elim (account_by_id id s.ledger) [
  | none ↦ pos 0
  | some a ↦ a.current_balance
]

unfoldable pub settlement_by_match : ℕ → FinanceStore → Option SettlementRecord
settlement_by_match match_id s =
    find (λ (t : SettlementRecord). t.match_id == match_id) s.settlements

unfoldable pub settlement_by_key : Text → FinanceStore → Option SettlementRecord
settlement_by_key key s =
    find (λ (t : SettlementRecord). text_eq t.idempotency_key key) s.settlements

abbrev joined : {A B : Type 0} → (A → Option B) → Option A → Option B
joined f none = none
joined f (some a) = f a

abbrev drawn : Option ResultRow → Bool
drawn none = false
drawn (some r) = r.is_draw

abbrev pub context_of_match : FinanceStore → MatchRow → SettlementContext
context_of_match s row =
    let terminal = find (λ d. not (is_active_dispute d)) row.disputes in
    record {
      match_id = row.match_id;
      match_status = row.match_status;
      completed_at = row.completed_at;
      settlement_eligible_at = row.settlement_eligible_at;
      result_id = Option.map (λ (r : ResultRow). r.result_id) row.result;
      result_status = Option.map (λ (r : ResultRow). r.result_status) row.result;
      result_version = Option.map (λ (r : ResultRow). r.result_version) row.result;
      winner_participant_id = joined (λ (r : ResultRow). r.winner_participant_id) row.result;
      is_draw = drawn row.result;
      terminal_dispute_id = Option.map (λ (d : DisputeRow). d.dispute_id) terminal;
      terminal_dispute_resolved_at = joined (λ (d : DisputeRow). d.resolved_at) terminal;
      active_dispute = any is_active_dispute row.disputes;
      reservations = map settlement_reservation (entry_reservations row.match_id s);
      escrow_balance = balance_or_zero (first_escrow_account (entry_reservations row.match_id s)) s;
      settlement_exists = is_some (settlement_by_match row.match_id s);
    }

-- `findSettlementContext`.
unfoldable pub find_settlement_context : ℕ → FinanceStore → Option SettlementContext
find_settlement_context match_id s = Option.map (context_of_match s) (match_by_id match_id s)
