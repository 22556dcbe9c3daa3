-- ===== src/Examples/Settling.antt =====
-- A completed match with two entries of 100 points, and the configuration that asks for them.
use arena_core.Prelude.{ℕ, ◌≡◌, refl, ◌↔◌, true, false, some, none, [], ◌∷◌, codes, text_eq, ltb}
use arena_core.Prelude.Int.{pos}
use arena_core.Prelude.Outcome.{ok}
use arena_core.Wallet.Amount.{digits_value}
use arena_core.Finance.Types.{
  completed, confirmed, released, winner_takes_all, SettlementContext, SettlementReservation,
}
use arena_core.Finance.Adapter.{recipients, total_amount, is_empty}
use arena_core.Finance.Eligibility.{
  evaluate_match_settlement_eligibility, eligibility_reasons, final_reasons, held_back,
  settlement_type_of, MaySettle,
}
use arena_core.Finance.Evaluation.{evaluate-MaySettle, evaluate-recipients}
use arena_core.Finance.Requirement.{
  Json, json_string, json_object, member, no_member, EntryRequirement, property, is_entry_amount,
  checked_entry, amount_of_entry, parse_entry, parse_requirement, IsConsistent,
  parse_requirement-IsConsistent,
}

abbrev entry_of_side : ℕ → SettlementReservation
entry_of_side n = record {
  id = n;
  participant_id = n;
  user_id = n;
  ledger_account_id = some n;
  escrow_account_id = some 9;
  asset_code = codes "ARENA_POINT";
  amount = pos 100;
  status = released;
}

abbrev finished : SettlementContext
finished = record {
  match_id = 3;
  match_status = completed;
  completed_at = some 10;
  settlement_eligible_at = some 20;
  result_id = some 4;
  result_status = some confirmed;
  result_version = some 1;
  winner_participant_id = some 2;
  is_draw = false;
  terminal_dispute_id = none;
  terminal_dispute_resolved_at = none;
  active_dispute = false;
  reservations = entry_of_side 1 ∷ entry_of_side 2 ∷ [];
  escrow_balance = pos 200;
  settlement_exists = false;
}

-- `Finance.Evaluation.evaluate-MaySettle` for the finished match, after the delay.
evaluate-MaySettle_example :
    ((evaluate_match_settlement_eligibility finished 30).eligible ≡ true) ↔ MaySettle finished 30
evaluate-MaySettle_example = evaluate-MaySettle finished 30

finished_type : (evaluate_match_settlement_eligibility finished 30).type ≡ some winner_takes_all
unfolding evaluate_match_settlement_eligibility eligibility_reasons final_reasons held_back
    settlement_type_of total_amount text_eq arena_core.Prelude.Int.◌+ℤ◌
finished_type = refl

-- `Finance.Evaluation.evaluate-recipients` for the finished match, after the delay.
evaluate-recipients_example :
    (is_empty (
        recipients winner_takes_all
          (some 2)
          (total_amount finished.reservations)
          finished.reservations)
      ≡ false)
    × (finished.escrow_balance ≡ total_amount finished.reservations)
evaluate-recipients_example = evaluate-recipients finished 30 winner_takes_all finished_type

abbrev pub entry_configuration : Json
entry_configuration = json_object (
    member (codes "entryRequirement")
      (json_object (
        member (codes "assetCode") (json_string (codes "ARENA_POINT"))
          (member (codes "amountPerParticipant") (json_string (codes "100")) no_member)))
      no_member)

abbrev hundred : EntryRequirement
hundred = record { amount_per_participant = codes "100"; required = true }

configuration_accepted : parse_requirement entry_configuration ≡ ok hundred
unfolding parse_requirement parse_entry amount_of_entry checked_entry is_entry_amount property
    digits_value text_eq
configuration_accepted = refl

-- `Finance.Requirement.parse_requirement-IsConsistent` for the configuration.
parse_requirement-IsConsistent_example : IsConsistent hundred
parse_requirement-IsConsistent_example =
    parse_requirement-IsConsistent entry_configuration configuration_accepted
