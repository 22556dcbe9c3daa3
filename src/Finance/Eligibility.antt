-- ===== src/Finance/Eligibility.antt =====
-- `evaluateMatchSettlementEligibility`, `settlementFingerprint` and `toSettlementView`
-- (packages/match-finance/src/domain/match-settlement-policies.ts).
use arena_core.Ledger.{Platform}
use arena_core.Prelude.{
  join, ℕ, ◌≡◌, Bool, true, false, not, ◌&&◌, ◌||◌, Option, none, some, List, [], ◌∷◌, ◌++◌, Text,
  codes, text_eq, ltb, ◌==◌, if◌then◌else◌, length, any, opt_eq,
}
use arena_core.Prelude.Int.{ℤ, pos, eqb_ℤ}
use arena_core.Wallet.Amount.{serialize_wallet_amount}
use arena_core.Finance.Types.{
  Reason, SettlementContext, SettlementEligibility, SettlementRecord, SettlementReservation,
  SettlementStatus, SettlementType, winner_takes_all, draw_refund, void_refund, is_released,
  is_reserved, is_refunded, is_voided, is_completed, is_final_result, is_winner_takes_all,
}
use arena_core.Finance.Adapter.{total_amount}

-- `if (test) reasons.push(reason)`.
abbrev pub push_if : Bool → Reason → List Reason
push_if test reason = if test then reason ∷ [] else []

abbrev pub is_other_asset : SettlementReservation → Bool
is_other_asset r = not (text_eq r.asset_code (codes "ARENA_POINT"))

abbrev pub not_held : SettlementReservation → Bool
not_held r = not (is_released r.status || is_reserved r.status)

abbrev pub not_released : SettlementReservation → Bool
not_released r = not (is_released r.status)

abbrev was_refunded : SettlementReservation → Bool
was_refunded r = is_refunded r.status

-- Why a reservation stands in the way: it is refunded, or not released.
unfoldable pub held_back : List SettlementReservation → Reason
held_back rs =
    if any was_refunded rs
    then Reason.reservation_already_refunded
    else Reason.reservation_not_released

abbrev pub is_winner : Option ℕ → SettlementReservation → Bool
is_winner winner r = opt_eq (some r.participant_id) winner

-- `!eligibleAt || eligibleAt > now`.
abbrev pub not_elapsed : Option ℕ → ℕ → Bool
not_elapsed none now = true
not_elapsed (some at) now = ltb now at

-- `a ?? b` for two values that may be null.
abbrev pub first_of : Option ℕ → Option ℕ → Option ℕ
first_of none b = b
first_of (some a) b = some a

unfoldable pub void_reasons : SettlementContext → List Reason
void_reasons context = push_if (any not_held context.reservations) (held_back context.reservations)

unfoldable pub final_reasons : SettlementContext → ℕ → List Reason
final_reasons context now =
    push_if (not (is_completed context.match_status)) Reason.match_not_final
    ++ (push_if (not (is_final_result context.result_status)) Reason.result_not_final
        ++ (push_if (any not_released context.reservations) (held_back context.reservations)
            ++ (push_if
                  (not context.is_draw
                    && not (any (is_winner context.winner_participant_id) context.reservations))
                  Reason.winner_not_participant
                ++ push_if
                    (not_elapsed
                      (first_of context.terminal_dispute_resolved_at context.settlement_eligible_at)
                      now)
                    Reason.settlement_delay_not_elapsed)))

unfoldable pub eligibility_reasons : SettlementContext → ℕ → List Reason
eligibility_reasons context now =
    push_if context.settlement_exists Reason.settlement_already_exists
    ++ (push_if (not (length context.reservations == 2)) Reason.participant_count_invalid
        ++ (push_if (any is_other_asset context.reservations) Reason.asset_mismatch
            ++ (push_if context.active_dispute Reason.active_dispute_exists
                ++ ((if is_voided context.match_status
                      then void_reasons context
                      else final_reasons context now)
                    ++ push_if
                        (not (eqb_ℤ context.escrow_balance (total_amount context.reservations)))
                        Reason.escrow_balance_mismatch))))

unfoldable pub settlement_type_of : SettlementContext → SettlementType
settlement_type_of context =
    if is_voided context.match_status
    then void_refund
    else if context.is_draw
    then draw_refund
    else winner_takes_all

abbrev pub is_empty_list : List Reason → Bool
is_empty_list [] = true
is_empty_list (_ ∷ _) = false

unfoldable pub evaluate_match_settlement_eligibility : SettlementContext → ℕ → SettlementEligibility
evaluate_match_settlement_eligibility context now =
    let reasons = eligibility_reasons context now in
    record {
      eligible = is_empty_list reasons;
      type = if is_empty_list reasons then some (settlement_type_of context) else none;
      reasons = reasons;
    }

-- What is asked of a match whose entries may be settled.
pub record MaySettle (context : SettlementContext) (now : ℕ) : Type 0 where
  pub unsettled : context.settlement_exists ≡ false
  pub two_entries : (length context.reservations == 2) ≡ true
  pub points_only : any is_other_asset context.reservations ≡ false
  pub undisputed : context.active_dispute ≡ false
  pub escrow_holds : eqb_ℤ context.escrow_balance (total_amount context.reservations) ≡ true
  pub voided : is_voided context.match_status ≡ true → any not_held context.reservations ≡ false
  pub completed :
      is_voided context.match_status ≡ false
      → (is_completed context.match_status ≡ true)
        × (is_final_result context.result_status ≡ true)
        × (any not_released context.reservations ≡ false)
        × (context.is_draw ≡ false
            → any (is_winner context.winner_participant_id) context.reservations ≡ true)
        × (not_elapsed
              (first_of context.terminal_dispute_resolved_at context.settlement_eligible_at)
              now
            ≡ false)

-- `toSettlementView`.
pub record SettlementView : Type 0 where
  pub match_id : ℕ
  pub status : SettlementStatus
  pub type : SettlementType
  pub total_amount : Text
  pub received_amount : Text
  pub settled_at : Option ℕ

unfoldable pub to_settlement_view : SettlementRecord → ℕ → ℤ → SettlementView
to_settlement_view settlement participant_id own_amount = record {
  match_id = settlement.match_id;
  status = settlement.status;
  type = settlement.type;
  total_amount = serialize_wallet_amount settlement.total_escrow_amount;
  received_amount = serialize_wallet_amount (
      if is_winner_takes_all settlement.type
      then (if opt_eq settlement.winner_participant_id (some participant_id)
          then settlement.distributed_amount
          else pos 0)
      else own_amount);
  settled_at = settlement.settled_at;
}

-- The words of the settlement types, and 'INELIGIBLE' for none.
abbrev type_text : Option SettlementType → Text
type_text none = codes "INELIGIBLE"
type_text (some winner_takes_all) = codes "WINNER_TAKES_ALL"
type_text (some draw_refund) = codes "DRAW_REFUND"
type_text (some void_refund) = codes "VOID_REFUND"

abbrev quoted : Text → Text
quoted s = codes "\"" ++ (s ++ codes "\"")

abbrev text_or_null : (ℕ → Text) → Option ℕ → Text
text_or_null f none = codes "null"
text_or_null f (some n) = f n

-- `settlementFingerprint`, with `JSON.stringify` written out.
unfoldable pub settlement_fingerprint :
    Platform → ℕ → Option ℕ → Option ℕ → Option SettlementType → ℤ → Text
settlement_fingerprint g match_id result_id result_version type total = g.sha256 (
    codes "{"
    ++ (join (codes ",") (
          (codes "\"operation\":\"MATCH_SETTLEMENT\"")
          ∷ (codes "\"matchId\":" ++ quoted (g.uuid_text match_id))
          ∷ (codes "\"resultId\":" ++ text_or_null (λ n. quoted (g.uuid_text n)) result_id)
          ∷ (codes "\"resultVersion\":"
              ++ text_or_null (λ n. serialize_wallet_amount (pos n)) result_version)
          ∷ (codes "\"type\":" ++ quoted (type_text type))
          ∷ (codes "\"total\":" ++ quoted (serialize_wallet_amount total))
          ∷ [])
        ++ codes "}"))
