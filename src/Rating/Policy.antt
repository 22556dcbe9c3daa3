-- ===== src/Rating/Policy.antt =====
-- The rating policy (packages/rating/src/domain/rating-policy.ts).
use arena_core.Prelude.{Bool, not, ◌||◌, List, [], ◌∷◌, any, if◌then◌else◌}
use arena_core.Prelude.Int.{ℤ, pos, negsuc, ltb_ℤ, leb_ℤ}
use arena_core.Prelude.Outcome.{Outcome, ok, throw}

pub data RatingErrorCode : Type 0 where
  rating_not_found rating_application_not_eligible : RatingErrorCode
  rating_application_delay_not_elapsed rating_application_active_dispute : RatingErrorCode
  rating_application_already_exists rating_application_idempotency_conflict : RatingErrorCode
  rating_application_result_invalid rating_application_participant_invalid : RatingErrorCode
  rating_policy_invalid rating_invariant_violation leaderboard_unavailable : RatingErrorCode
  rating_service_unavailable rating_persistence_failure : RatingErrorCode

-- `RatingPolicy`, without its constant key and version.
pub record RatingPolicy : Type 0 where
  pub initial_rating : ℤ
  pub provisional_match_count : ℤ
  pub provisional_k_factor : ℤ
  pub established_k_factor : ℤ
  pub minimum_rating : ℤ
  pub maximum_rating : ℤ

-- `Number.isSafeInteger`, on integers.
unfoldable pub is_safe_integer : ℤ → Bool
is_safe_integer (pos n) = leb_ℤ (pos n) (pos 9_007_199_254_740_991)
is_safe_integer (negsuc n) = leb_ℤ (pos n) (pos 9_007_199_254_740_990)

abbrev is_unsafe : ℤ → Bool
is_unsafe n = not (is_safe_integer n)

abbrev integers_of : RatingPolicy → List ℤ
integers_of p =
    p.initial_rating ∷ p.provisional_match_count ∷ p.provisional_k_factor ∷ p.established_k_factor
    ∷ p.minimum_rating ∷ p.maximum_rating ∷ []

unfoldable pub is_invalid_policy : RatingPolicy → Bool
is_invalid_policy p =
    any is_unsafe (integers_of p)
    || ltb_ℤ p.minimum_rating (pos 0)
    || ltb_ℤ (pos 10_000) p.maximum_rating
    || leb_ℤ p.maximum_rating p.minimum_rating
    || ltb_ℤ p.initial_rating p.minimum_rating
    || ltb_ℤ p.maximum_rating p.initial_rating
    || ltb_ℤ p.provisional_match_count (pos 0)
    || ltb_ℤ (pos 100) p.provisional_match_count
    || ltb_ℤ p.provisional_k_factor (pos 1)
    || ltb_ℤ (pos 200) p.provisional_k_factor
    || ltb_ℤ p.established_k_factor (pos 1)
    || ltb_ℤ p.provisional_k_factor p.established_k_factor

unfoldable pub validate_rating_policy : RatingPolicy → Outcome RatingErrorCode RatingPolicy
validate_rating_policy policy =
    if is_invalid_policy policy then throw rating_policy_invalid else ok policy

unfoldable pub k_factor : RatingPolicy → ℤ → ℤ
k_factor policy matches_played =
    if ltb_ℤ matches_played policy.provisional_match_count
    then policy.provisional_k_factor
    else policy.established_k_factor
