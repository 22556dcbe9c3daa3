-- ===== src/Finance/Settlements.antt =====
-- `MatchSettlementService` (packages/match-finance/src/application/match-settlement-service.ts), with
-- the default delay, and without the hook that it calls when the transaction is committed.
use arena_core.Prelude.{
  ℕ, ◌+◌, ◌*◌, Bool, true, false, not, ◌&&◌, none, some, List, ◌++◌, Text, codes, text_eq, ◌==◌,
  if◌then◌else◌, find, any, is_some, opt_eq,
}
use arena_core.Prelude.Outcome.{pure, gets, throw_if, or_throw, ◌>>=◌, ◌>>◌}
use arena_core.Ledger.{coded, Platform}
use arena_core.Finance.Types.{
  SettlementContext, SettlementRecord, Reason, MatchSettlementErrorCode, match_settlement_not_found,
  match_settlement_idempotency_conflict, match_settlement_already_exists,
  match_settlement_active_dispute, match_settlement_delay_not_elapsed,
  match_settlement_escrow_mismatch, match_settlement_not_eligible, is_admin_resolved,
}
use arena_core.Finance.Adapter.{total_amount, post_settlement}
use arena_core.Finance.Eligibility.{
  evaluate_match_settlement_eligibility, settlement_fingerprint, SettlementView, to_settlement_view,
}
use arena_core.Finance.Store.{ReservationRow, on_ledger}
use arena_core.Finance.Contexts.{
  SettlementServiceTx, find_settlement_context, settlement_by_key, settlement_by_match,
}
use arena_core.Finance.Closing.{create_settlement}

-- `delaySeconds`.
abbrev pub delay_seconds : ℕ
delay_seconds = 86400

-- `effectiveContext`.
unfoldable pub effective_context : SettlementContext → SettlementContext
effective_context context = elim context.settlement_eligible_at [
  | some _ ↦ context
  | none ↦ elim context.completed_at [
    | none ↦ context
    | some completed_at ↦
        let delayed = completed_at + delay_seconds * 1000 in
        record context {
          settlement_eligible_at = some (elim context.terminal_dispute_resolved_at [
            | none ↦ delayed
            | some resolved_at ↦
                if is_admin_resolved context.result_status then resolved_at else delayed
          ]);
        }
  ]
]

pub record SettleInput : Type 0 where
  pub match_id : ℕ
  pub idempotency_key : Text
  pub actor_user_id : ℕ

abbrev pub is_reason_dispute : Reason → Bool
is_reason_dispute Reason.active_dispute_exists = true
is_reason_dispute _ = false

abbrev pub is_reason_delay : Reason → Bool
is_reason_delay Reason.settlement_delay_not_elapsed = true
is_reason_delay _ = false

abbrev pub is_reason_balance : Reason → Bool
is_reason_balance Reason.escrow_balance_mismatch = true
is_reason_balance _ = false

-- The error that the reasons give.
unfoldable pub ineligible : List Reason → MatchSettlementErrorCode
ineligible reasons =
    if any is_reason_dispute reasons
    then match_settlement_active_dispute
    else if any is_reason_delay reasons
    then match_settlement_delay_not_elapsed
    else if any is_reason_balance reasons
    then match_settlement_escrow_mismatch
    else match_settlement_not_eligible

-- The part of `settle` in which no settlement exists.
unfoldable pub settle_new :
    Platform → ℕ → ℕ → SettleInput → SettlementContext → Text → SettlementServiceTx SettlementRecord
settle_new g id now input context fingerprint = do
  let eligibility = evaluate_match_settlement_eligibility (effective_context context) now
  throw_if (not eligibility.eligible) (coded (ineligible eligibility.reasons))
  type ← or_throw eligibility.type (coded (ineligible eligibility.reasons))
  transaction_id ← on_ledger (
      post_settlement g (record {
        match_id = input.match_id;
        type = type;
        winner_participant_id = context.winner_participant_id;
        reservations = context.reservations;
        idempotency_key = codes "ledger:" ++ input.idempotency_key;
        fingerprint = fingerprint;
        actor_user_id = input.actor_user_id;
        now = now;
      }))
  create_settlement (record {
    id = id;
    context = context;
    type = type;
    total = total_amount context.reservations;
    transaction_id = transaction_id;
    idempotency_key = input.idempotency_key;
    fingerprint = fingerprint;
    now = now;
  })

abbrev pub settle_fingerprint : Platform → ℕ → SettlementContext → Text
settle_fingerprint g now context =
    settlement_fingerprint g context.match_id context.result_id context.result_version
      (evaluate_match_settlement_eligibility (effective_context context) now).type
      (total_amount context.reservations)

-- `settle`, with the identifier that is generated and the time of the clock.
unfoldable pub settle : Platform → ℕ → ℕ → SettleInput → SettlementServiceTx SettlementRecord
settle g id now input = do
  row ← gets (find_settlement_context input.match_id)
  context ← or_throw row (coded match_settlement_not_found)
  keyed ← gets (settlement_by_key input.idempotency_key)
  elim keyed [
    | some found ↦ do
      throw_if (not (text_eq found.request_fingerprint (settle_fingerprint g now context)))
          (coded match_settlement_idempotency_conflict)
      pure found
    | none ↦ do
      existing ← gets (settlement_by_match input.match_id)
      throw_if (is_some existing) (coded match_settlement_already_exists)
      settle_new g id now input context (settle_fingerprint g now context)
  ]

-- `getSettlementForUser` and `getMine`: the user's settled reservation, and its settlement.
unfoldable pub get_my_settlement : ℕ → ℕ → SettlementServiceTx SettlementView
get_my_settlement user_id match_id = do
  row ← gets (λ s.
      find
        (λ (r : ReservationRow).
          r.user_id == user_id && r.match_id == match_id && is_some r.settlement_id)
        s.reservations)
  reservation ← or_throw row (coded match_settlement_not_found)
  found ← gets (λ s.
      find (λ (t : SettlementRecord). opt_eq (some t.id) reservation.settlement_id) s.settlements)
  settlement ← or_throw found (coded match_settlement_not_found)
  pure (to_settlement_view settlement reservation.participant_id reservation.amount)
