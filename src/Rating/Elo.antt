-- ===== src/Rating/Elo.antt =====
-- The Elo calculation (packages/rating/src/domain/elo-rating-calculator.ts). The language's
-- floating-point arithmetic is a parameter: what `Math.round` makes of the rating, the factor and the
-- difference between the actual and the expected score.
use arena_core.Prelude.{◌≡◌, refl, Bool, true, false, not, ◌||◌, arith, if◌then◌else◌}
use arena_core.Prelude.Int.{ℤ, pos, ◌+ℤ◌, ◌-ℤ◌, ◌≤ℤ◌, ltb_ℤ, int_laws}
use arena_core.Prelude.Outcome.{Outcome, ok, throw}
use arena_core.Rating.Policy.{
  RatingErrorCode, rating_invariant_violation, rating_application_result_invalid, RatingPolicy,
  is_safe_integer, is_invalid_policy, validate_rating_policy, k_factor,
}

pub data ScoredOutcome : Type 0 where
  win loss drawn : ScoredOutcome

-- The scores 1, 0 and 0.5, doubled.
abbrev pub doubled_score : ScoredOutcome → ℤ
doubled_score win = pos 2
doubled_score loss = pos 0
doubled_score drawn = pos 1

-- `Math.round(rating + factor * (score - expected))`: for the first participant the expected score is
-- `1 / (1 + 10 ** (difference / 400))`, for the second it is 1 less that.
pub record Arithmetic : Type 0 where
  pub round_first : ℤ → ℤ → ScoredOutcome → ℤ → ℤ
  pub round_second : ℤ → ℤ → ScoredOutcome → ℤ → ℤ

pub record EloInput : Type 0 where
  pub rating : ℤ
  pub matches_played : ℤ
  pub outcome : ScoredOutcome

-- `EloParticipantResult`; the expected score is left out.
pub record EloParticipantResult : Type 0 where
  pub rating_before : ℤ
  pub rating_after : ℤ
  pub rating_delta : ℤ
  pub actual_score : ScoredOutcome
  pub k_factor : ℤ

pub record EloPairResult : Type 0 where
  pub participant_a : EloParticipantResult
  pub participant_b : EloParticipantResult

-- The test of `assertRating`.
unfoldable pub is_bad_rating : RatingPolicy → ℤ → ℤ → Bool
is_bad_rating policy rating matches_played =
    not (is_safe_integer rating)
    || ltb_ℤ rating policy.minimum_rating
    || ltb_ℤ policy.maximum_rating rating
    || not (is_safe_integer matches_played)
    || ltb_ℤ matches_played (pos 0)

-- `Math.min(maximum, Math.max(minimum, value))`.
unfoldable pub clamped : RatingPolicy → ℤ → ℤ
clamped policy value =
    let at_least = if ltb_ℤ value policy.minimum_rating then policy.minimum_rating else value in
    if ltb_ℤ policy.maximum_rating at_least then policy.maximum_rating else at_least

-- `make`, for a rounded rating.
unfoldable pub make : RatingPolicy → EloInput → ℤ → EloParticipantResult
make policy input rounded = record {
  rating_before = input.rating;
  rating_after = clamped policy rounded;
  rating_delta = clamped policy rounded -ℤ input.rating;
  actual_score = input.outcome;
  k_factor = k_factor policy input.matches_played;
}

-- The scores add up to 1.
abbrev pub scores_match : ScoredOutcome → ScoredOutcome → Bool
scores_match win loss = true
scores_match loss win = true
scores_match drawn drawn = true
scores_match _ _ = false

unfoldable pub calculate_elo_pair :
    Arithmetic → RatingPolicy → EloInput → EloInput → Outcome RatingErrorCode EloPairResult
calculate_elo_pair m policy a b = elim (validate_rating_policy policy) [
  | throw e ↦ throw e
  | ok checked ↦
      let bad_a = is_bad_rating checked a.rating a.matches_played in
      let bad_b = is_bad_rating checked b.rating b.matches_played in
      let rounded_a =
        m.round_first a.rating (k_factor checked a.matches_played) a.outcome
          (b.rating -ℤ a.rating) in
      let rounded_b =
        m.round_second b.rating (k_factor checked b.matches_played) b.outcome
          (b.rating -ℤ a.rating) in
      if bad_a
      then throw rating_invariant_violation
      else if bad_b
      then throw rating_invariant_violation
      else if not (scores_match a.outcome b.outcome)
      then throw rating_application_result_invalid
      else ok (record {
        participant_a = make checked a rounded_a;
        participant_b = make checked b rounded_b;
      })
]

-- What is asked of the input.
pub record IsRatable (policy : RatingPolicy) (a b : EloInput) : Type 0 where
  pub policy_valid : is_invalid_policy policy ≡ false
  pub first_valid : is_bad_rating policy a.rating a.matches_played ≡ false
  pub second_valid : is_bad_rating policy b.rating b.matches_played ≡ false
  pub one_point : doubled_score a.outcome +ℤ doubled_score b.outcome ≡ pos 2

-- Within the bounds of the policy, and the change is the difference.
abbrev pub IsWithin : RatingPolicy → EloInput → EloParticipantResult → Type 0
IsWithin policy input r =
    (policy.minimum_rating ≤ℤ r.rating_after)
    × (r.rating_after ≤ℤ policy.maximum_rating)
    × (r.rating_before ≡ input.rating)
    × (r.rating_before +ℤ r.rating_delta ≡ r.rating_after)
    × (pos 1 ≤ℤ r.k_factor)
    × (r.k_factor ≤ℤ pos 200)

make-IsWithin :
    (policy : RatingPolicy) (input : EloInput) (rounded : ℤ)
    → is_invalid_policy policy ≡ false
    → IsWithin policy input (make policy input rounded)
unfolding make clamped k_factor is_invalid_policy
make-IsWithin policy input rounded valid =
    (ground arith, ground arith, refl, omega int_laws, ground arith, ground arith)

scores_match_of_sum :
    (a b : ScoredOutcome) → doubled_score a +ℤ doubled_score b ≡ pos 2 → scores_match a b ≡ true
unfolding ◌+ℤ◌
scores_match_of_sum a b h = ground arith

validate-ok :
    (policy : RatingPolicy)
    → is_invalid_policy policy ≡ false
    → validate_rating_policy policy ≡ ok policy
unfolding validate_rating_policy
validate-ok policy valid = rw valid refl

-- With a valid policy, ratings within its bounds, counts of matches of at least 0, and scores that add
-- up to 1, the calculation succeeds whatever the rounding gives: both new ratings lie within the
-- bounds, each is the old one and the change, and the factors lie between 1 and 200.
pub calculate_elo_pair-IsWithin :
    (m : Arithmetic) (policy : RatingPolicy) (a b : EloInput)
    → IsRatable policy a b
    → (r : EloPairResult) × (calculate_elo_pair m policy a b ≡ ok r)
      × IsWithin policy a r.participant_a
      × IsWithin policy b r.participant_b
unfolding calculate_elo_pair
calculate_elo_pair-IsWithin m policy a b h =
    let matching = scores_match_of_sum a.outcome b.outcome h.one_point in
    let rounded_a =
      m.round_first a.rating (k_factor policy a.matches_played) a.outcome (b.rating -ℤ a.rating) in
    let rounded_b =
      m.round_second b.rating (k_factor policy b.matches_played) b.outcome (b.rating -ℤ a.rating) in
    (
      record { participant_a = make policy a rounded_a; participant_b = make policy b rounded_b },
      rw
          (
            calculate_elo_pair,
            validate-ok policy h.policy_valid,
            h.first_valid,
            h.second_valid,
            matching,
          )
          refl,
      make-IsWithin policy a rounded_a h.policy_valid,
      make-IsWithin policy b rounded_b h.policy_valid,
    )
