-- ===== src/Finance/Closing.antt =====
-- `createSettlement` of `PrismaMatchSettlementRepository`
-- (packages/match-finance/src/infrastructure/prisma-match-settlement-repository.ts).
use arena_core.Prelude.{
  ℕ, Bool, ◌||◌, Option, none, some, List, [], ◌∷◌, Text, text_eq, ◌==◌, if◌then◌else◌, any, opt_eq,
}
use arena_core.Prelude.Int.{ℤ, pos}
use arena_core.Prelude.Outcome.{pure, gets, modify, throw_if, or_throw, ◌>>=◌, ◌>>◌}
use arena_core.Ledger.{unique_violation, record_not_found}
use arena_core.Finance.Types.{
  SettlementContext, SettlementReservation, SettlementRecord, SettlementType, winner_takes_all,
  draw_refund, void_refund, SettlementOutcome, winner_credited, loser_contributed, draw_refunded,
  void_refunded, settlement_refunded, settlement_settled, refunded, settled, is_winner_takes_all,
}
use arena_core.Finance.Store.{ReservationRow, FinanceStore}
use arena_core.Finance.Repository.{row_by_id}
use arena_core.Finance.Writes.{put_rows, rewrite_rows}
use arena_core.Finance.Contexts.{SettlementServiceTx}

-- `outcomes.get(reservation.id)`.
unfoldable pub outcome_of : SettlementType → Option ℕ → SettlementReservation → SettlementOutcome
outcome_of winner_takes_all winner r =
    if opt_eq (some r.participant_id) winner then winner_credited else loser_contributed
outcome_of draw_refund winner r = draw_refunded
outcome_of void_refund winner r = void_refunded

pub record CreateSettlementInput : Type 0 where
  pub id : ℕ
  pub context : SettlementContext
  pub type : SettlementType
  pub total : ℤ
  pub transaction_id : ℕ
  pub idempotency_key : Text
  pub fingerprint : Text
  pub now : ℕ

-- The row that `createSettlement` inserts.
unfoldable pub new_settlement : CreateSettlementInput → SettlementRecord
new_settlement input =
    let wins = is_winner_takes_all input.type in
    record {
      id = input.id;
      match_id = input.context.match_id;
      status = if wins then settlement_settled else settlement_refunded;
      type = input.type;
      total_escrow_amount = input.total;
      distributed_amount = if wins then input.total else pos 0;
      refunded_amount = if wins then pos 0 else input.total;
      retained_amount = pos 0;
      winner_participant_id = if wins then input.context.winner_participant_id else none;
      result_id = input.context.result_id;
      dispute_id = input.context.terminal_dispute_id;
      idempotency_key = input.idempotency_key;
      request_fingerprint = input.fingerprint;
      settlement_transaction_id = some input.transaction_id;
      settled_at = some input.now;
    }

-- The reservation that the loop of `createSettlement` writes: a refunded one gets a date, but no
-- refund transaction, and the date of its release stays.
unfoldable pub closed_row :
    CreateSettlementInput → SettlementReservation → ReservationRow → ReservationRow
closed_row input r row =
    let wins = is_winner_takes_all input.type in
    record row {
      columns = record row.columns {
        status = if wins then settled else refunded;
        refunded_at = if wins then row.refunded_at else some input.now;
      };
      settlement_id = some input.id;
      settlement_outcome = some (outcome_of input.type input.context.winner_participant_id r);
    }

unfoldable pub close_reservations :
    CreateSettlementInput → List SettlementReservation → SettlementServiceTx (Unit {0})
close_reservations input [] = pure tt
close_reservations input (r ∷ rs) = do
  row ← gets (λ s. row_by_id r.id s.reservations)
  found ← or_throw row record_not_found
  rows ← gets (λ (s : FinanceStore). s.reservations)
  put_rows (rewrite_rows (λ (x : ReservationRow). x.id == r.id) (closed_row input r) rows)
  close_reservations input rs

abbrev takes_settlement_key : SettlementRecord → SettlementRecord → Bool
takes_settlement_key row t =
    t.id == row.id
    || t.match_id == row.match_id
    || text_eq t.idempotency_key row.idempotency_key
    || opt_eq t.settlement_transaction_id row.settlement_transaction_id

-- `createSettlement`.
unfoldable pub create_settlement : CreateSettlementInput → SettlementServiceTx SettlementRecord
create_settlement input = do
  taken ← gets (λ s. any (takes_settlement_key (new_settlement input)) s.settlements)
  throw_if taken unique_violation
  modify (λ s. record s { settlements = new_settlement input ∷ s.settlements })
  close_reservations input input.context.reservations
  pure (new_settlement input)
