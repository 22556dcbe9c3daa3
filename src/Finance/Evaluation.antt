-- ===== src/Finance/Evaluation.antt =====
-- What `evaluateMatchSettlementEligibility`
-- (packages/match-finance/src/domain/match-settlement-policies.ts) decides.
use arena_core.Prelude.{
  ℕ, ◌≡◌, refl, ◌↔◌, Bool, true, false, not, ◌&&◌, some, none, List, [], ◌∷◌, ◌++◌, arith, ◌==◌,
  if◌then◌else◌, Bool-cases, inl, inr, Option, any, length,
}
use arena_core.Prelude.Int.{ℤ, eqb_ℤ, eqb_ℤ→eq}
use arena_core.Finance.Types.{
  Reason, SettlementContext, SettlementReservation, SettlementType, winner_takes_all, draw_refund,
  void_refund, is_voided, is_winner_takes_all, is_completed, is_final_result,
}
use arena_core.Finance.Adapter.{recipients, total_amount, is_empty}
use arena_core.Finance.Eligibility.{
  push_if, is_empty_list, evaluate_match_settlement_eligibility, eligibility_reasons, void_reasons,
  final_reasons, settlement_type_of, MaySettle, is_winner, not_held, not_released, is_other_asset,
  not_elapsed, first_of,
}

is_empty_list-++ :
    (a b : List Reason) → is_empty_list (a ++ b) ≡ (is_empty_list a && is_empty_list b)
is_empty_list-++ [] b = refl
is_empty_list-++ (r ∷ a) b = refl

is_empty_list-push_if : (test : Bool) (r : Reason) → is_empty_list (push_if test r) ≡ not test
is_empty_list-push_if true r = refl
is_empty_list-push_if false r = refl

module _ (context : SettlementContext) (now : ℕ) where
  -- The two branches on a voided match, as tests.
  abbrev void_test : Bool
  void_test = not (any not_held context.reservations)

  abbrev final_test : Bool
  final_test =
      not (not (is_completed context.match_status))
      && (not (not (is_final_result context.result_status))
          && (not (any not_released context.reservations)
              && (not (
                    not context.is_draw
                    && not (any (is_winner context.winner_participant_id) context.reservations))
                  && not (
                      not_elapsed
                        (first_of context.terminal_dispute_resolved_at
                          context.settlement_eligible_at)
                        now))))

  abbrev whole_test : Bool
  whole_test =
      not context.settlement_exists
      && (not (not (length context.reservations == 2))
          && (not (any is_other_asset context.reservations)
              && (not context.active_dispute
                  && ((if is_voided context.match_status then void_test else final_test)
                      && not (
                          not
                            (eqb_ℤ context.escrow_balance (total_amount context.reservations)))))))

  no_void_reasons : is_empty_list (void_reasons context) ≡ void_test
  unfolding void_reasons
  no_void_reasons = simp (is_empty_list-push_if)

  no_final_reasons : is_empty_list (final_reasons context now) ≡ final_test
  unfolding final_reasons
  no_final_reasons = simp (is_empty_list-++, is_empty_list-push_if)

  no_branch_reasons :
      is_empty_list
        (if is_voided context.match_status then void_reasons context else final_reasons context now)
      ≡ (if is_voided context.match_status then void_test else final_test)
  no_branch_reasons = elim (Bool-cases (is_voided context.match_status)) [
    | inl voided ↦ rw voided no_void_reasons
    | inr final ↦ rw final no_final_reasons
  ]

  no_reasons : is_empty_list (eligibility_reasons context now) ≡ whole_test
  unfolding eligibility_reasons
  no_reasons = simp (is_empty_list-++, is_empty_list-push_if, no_branch_reasons)

  may_of_test : whole_test ≡ true → MaySettle context now
  may_of_test h = record {
    unsettled = ground arith;
    two_entries = ground arith;
    points_only = ground arith;
    undisputed = ground arith;
    escrow_holds = ground arith;
    voided = λ v. ground arith;
    completed = λ v. (ground arith, ground arith, ground arith, λ d. ground arith, ground arith);
  }

  winner_of_may :
      (context.is_draw ≡ false
        → any (is_winner context.winner_participant_id) context.reservations ≡ true)
      → not (
          not context.is_draw
          && not (any (is_winner context.winner_participant_id) context.reservations))
        ≡ true
  winner_of_may h = elim (Bool-cases context.is_draw) [
    | inl draw ↦ rw draw refl
    | inr played ↦ rw (played, h played) refl
  ]

  branch_of_may :
      MaySettle context now
      → (if is_voided context.match_status then void_test else final_test) ≡ true
  branch_of_may m = elim (Bool-cases (is_voided context.match_status)) [
    | inl voided ↦ rw (voided, m.voided voided) refl
    | inr final ↦
        let (over, decided, paid_in, winner, elapsed) = m.completed final in
        rw (final, over, decided, paid_in, winner_of_may winner, elapsed) refl
  ]

  test_of_may : MaySettle context now → whole_test ≡ true
  test_of_may m =
      rw (m.unsettled, m.two_entries, m.points_only, m.undisputed, branch_of_may m, m.escrow_holds)
        refl

-- A match may be settled exactly when no settlement exists, there are two reservations of Arena
-- Points that add up to the escrow's balance, no dispute is active, and either the match is voided
-- and each reservation is held, or it is completed with a final result, each reservation is
-- released, the winner of a match that is no draw is a participant, and the delay has elapsed.
pub evaluate-MaySettle :
    (context : SettlementContext) (now : ℕ)
    → ((evaluate_match_settlement_eligibility context now).eligible ≡ true) ↔ MaySettle context now
unfolding evaluate_match_settlement_eligibility
evaluate-MaySettle context now = (
  λ h. may_of_test context now (rw (no_reasons context now) at h),
  λ m. rw (no_reasons context now) (test_of_may context now m),
)

module _ (type : SettlementType) (total : ℤ) (w : Option ℕ) where
  winner_is_paid :
      (rs : List SettlementReservation)
      → is_winner_takes_all type ≡ true
      → any (is_winner w) rs ≡ true
      → is_empty (recipients type w total rs) ≡ false
  unfolding recipients
  winner_is_paid [] wta h = cc
  winner_is_paid (r ∷ rs) wta h = elim (Bool-cases (is_winner w r)) [
    | inl wins ↦ rw (wta, wins) refl
    | inr other ↦ rw (wta, other) (winner_is_paid rs wta (rw other at h))
  ]

  all_are_paid :
      (rs : List SettlementReservation)
      → is_winner_takes_all type ≡ false
      → (length rs == 2) ≡ true
      → is_empty (recipients type w total rs) ≡ false
  unfolding recipients
  all_are_paid [] back h = cc
  all_are_paid (r ∷ rs) back h = rw back refl

pub type_of_evaluation :
    (context : SettlementContext) (now : ℕ) (type : SettlementType)
    → (evaluate_match_settlement_eligibility context now).type ≡ some type
    → MaySettle context now × (settlement_type_of context ≡ type)
unfolding evaluate_match_settlement_eligibility
type_of_evaluation context now type h =
    elim (Bool-cases (is_empty_list (eligibility_reasons context now))) [
      | inl may ↦
          let same : some (settlement_type_of context) ≡ some type = rw may at h in
          (may_of_test context now (rw (no_reasons context now) at may), cc same)
      | inr reasons ↦ let nothing : none ≡ some type = rw reasons at h in absurd (ground arith)
    ]

somebody_is_paid :
    (context : SettlementContext) (now : ℕ) (total : ℤ)
    → MaySettle context now
    → is_empty (
        recipients
          (settlement_type_of context)
          context.winner_participant_id
          total
          context.reservations)
      ≡ false
unfolding settlement_type_of
somebody_is_paid context now total m = elim (Bool-cases (is_voided context.match_status)) [
  | inl voided ↦
      rw voided (all_are_paid void_refund total _ context.reservations refl m.two_entries)
  | inr final ↦ elim (Bool-cases context.is_draw) [
    | inl draw ↦
        rw (final, draw) (all_are_paid draw_refund total _ context.reservations refl m.two_entries)
    | inr played ↦
        rw (final, played)
          (winner_is_paid winner_takes_all total _ context.reservations refl
            ((m.completed final).3 played))
  ]
]

-- For a match that may be settled, with the type that the evaluation returns, `postSettlement` has
-- recipients, and the amount that it takes is the escrow's balance in the context.
pub evaluate-recipients :
    (context : SettlementContext) (now : ℕ) (type : SettlementType)
    → (evaluate_match_settlement_eligibility context now).type ≡ some type
    → (is_empty (
          recipients type context.winner_participant_id
            (total_amount context.reservations)
            context.reservations)
        ≡ false)
      × (context.escrow_balance ≡ total_amount context.reservations)
evaluate-recipients context now type h =
    let (m, same) = type_of_evaluation context now type h in
    (
      rw (← same) (somebody_is_paid context now (total_amount context.reservations) m),
      eqb_ℤ→eq context.escrow_balance (total_amount context.reservations) m.escrow_holds,
    )
