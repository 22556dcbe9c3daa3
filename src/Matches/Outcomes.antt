-- ===== src/Matches/Outcomes.antt =====
-- `deriveOutcome` and `sameCanonicalResult` (packages/matches/src/domain/match-result-policies.ts).
use arena_core.Prelude.{
  ℕ, ◌≡◌, refl, Bool, true, false, not, Option, none, some, List, [], ◌∷◌, ltb, ◌==◌, if◌then◌else◌,
  find, Bool-cases, inl, inr,
}
use arena_core.Prelude.Outcome.{Outcome, ok, throw}

pub data ResultErrorCode : Type 0 where
  match_start_invalid match_already_started match_result_not_found : ResultErrorCode
  match_result_submission_not_allowed match_result_submission_deadline_expired : ResultErrorCode
  match_result_already_finalized match_result_invalid match_result_withdraw_not_allowed :
      ResultErrorCode
  match_result_conflict_not_found match_result_resolution_invalid : ResultErrorCode
  match_result_permission_denied match_result_service_unavailable : ResultErrorCode
  match_result_persistence_failure : ResultErrorCode

pub data Side : Type 0 where
  side_a side_b : Side

-- `MatchParticipantScore`.
pub record Score : Type 0 where
  pub side : Side
  pub score : ℕ

pub data OutcomeKind : Type 0 where
  win_loss draw : OutcomeKind

-- `MatchResultPayload`.
pub record ResultPayload : Type 0 where
  pub scores : List Score
  pub outcome : OutcomeKind

-- The columns of a match's participant that `deriveOutcome` reads.
pub record Participant : Type 0 where
  pub id : ℕ
  pub side : Side

-- `MatchResultOutcome`.
pub record ResultOutcome : Type 0 where
  pub winner_participant_id : Option ℕ
  pub loser_participant_id : Option ℕ
  pub is_draw : Bool

abbrev pub same_side : Side → Side → Bool
same_side side_a side_a = true
same_side side_b side_b = true
same_side _ _ = false

abbrev same_kind : OutcomeKind → OutcomeKind → Bool
same_kind win_loss win_loss = true
same_kind draw draw = true
same_kind _ _ = false

abbrev pub drawn : ResultOutcome
drawn = record { winner_participant_id = none; loser_participant_id = none; is_draw = true }

abbrev pub won : ℕ → ℕ → ResultOutcome
won winner loser = record {
  winner_participant_id = some winner;
  loser_participant_id = some loser;
  is_draw = false;
}

abbrev pub outcome_of_found :
    Option Participant → Option Participant → Outcome ResultErrorCode ResultOutcome
outcome_of_found (some winner) (some loser) = ok (won winner.id loser.id)
outcome_of_found _ _ = throw match_result_invalid

-- `a.score > b.score ? a.side : b.side`.
abbrev pub winner_side : Score → Score → Side
winner_side a b = if ltb b.score a.score then a.side else b.side

abbrev outcome_of_scores : List Score → List Participant → Outcome ResultErrorCode ResultOutcome
outcome_of_scores (a ∷ (b ∷ _)) participants =
    outcome_of_found (find (λ (p : Participant). same_side p.side (winner_side a b)) participants)
      (find (λ (p : Participant). not (same_side p.side (winner_side a b))) participants)
outcome_of_scores _ participants = throw match_result_invalid

unfoldable pub derive_outcome :
    ResultPayload → List Participant → Outcome ResultErrorCode ResultOutcome
derive_outcome payload participants =
    if same_kind payload.outcome draw
    then ok drawn
    else outcome_of_scores payload.scores participants

-- A payload of scores for the two sides, with the outcome that `validateAndCanonicalizeResult` gives it.
abbrev pub canonical : ℕ → ℕ → ResultPayload
canonical m n = record {
  scores = record { side = side_a; score = m } ∷ record { side = side_b; score = n } ∷ [];
  outcome = if m == n then draw else win_loss;
}

-- What the scores say, for participants `p` and `q` on the sides A and B.
abbrev pub by_scores : ℕ → ℕ → ℕ → ℕ → ResultOutcome
by_scores p q m n = if m == n then drawn else if ltb n m then won p q else won q p

-- For scores in canonical form and participants on the two sides, in either order, the outcome is a
-- draw if the scores are equal, and otherwise the participant with the higher score has won.
pub derive_outcome-by_scores :
    (p q m n : ℕ)
    → (derive_outcome
          (canonical m n)
          (record { id = p; side = side_a } ∷ record { id = q; side = side_b } ∷ [])
        ≡ ok (by_scores p q m n))
      × (derive_outcome
            (canonical m n)
            (record { id = q; side = side_b } ∷ record { id = p; side = side_a } ∷ [])
          ≡ ok (by_scores p q m n))
unfolding derive_outcome
derive_outcome-by_scores p q m n = elim (Bool-cases (m == n)) [
  | inl equal ↦ (rw equal refl, rw equal refl)
  | inr apart ↦ elim (Bool-cases (ltb n m)) [
    | inl first ↦ (rw (apart, first) refl, rw (apart, first) refl)
    | inr second ↦ (rw (apart, second) refl, rw (apart, second) refl)
  ]
]
