-- ===== src/Examples/Rated.antt =====
-- A win between two players, with a rounding that moves by the factor.
use arena_core.Prelude.{◌≡◌, refl}
use arena_core.Prelude.Int.{pos, ◌+ℤ◌, ◌-ℤ◌}
use arena_core.Prelude.Outcome.{ok}
use arena_core.Rating.Policy.{RatingPolicy, is_invalid_policy, is_safe_integer}
use arena_core.Rating.Elo.{
  Arithmetic, EloInput, EloPairResult, win, loss, calculate_elo_pair, is_bad_rating, IsRatable,
  IsWithin, calculate_elo_pair-IsWithin,
}

abbrev by_factor : Arithmetic
by_factor = record {
  round_first = λ rating factor outcome difference. rating +ℤ factor;
  round_second = λ rating factor outcome difference. rating -ℤ factor;
}

abbrev usual : RatingPolicy
usual = record {
  initial_rating = pos 1200;
  provisional_match_count = pos 10;
  provisional_k_factor = pos 40;
  established_k_factor = pos 20;
  minimum_rating = pos 100;
  maximum_rating = pos 4000;
}

abbrev stronger : EloInput
stronger = record { rating = pos 1400; matches_played = pos 30; outcome = win }

abbrev weaker : EloInput
weaker = record { rating = pos 1000; matches_played = pos 3; outcome = loss }

they-IsRatable : IsRatable usual stronger weaker
unfolding is_invalid_policy is_bad_rating is_safe_integer ◌+ℤ◌
they-IsRatable = record {
  policy_valid = refl;
  first_valid = refl;
  second_valid = refl;
  one_point = refl;
}

-- `Rating.Elo.calculate_elo_pair-IsWithin` for the two players.
calculate_elo_pair-IsWithin_example :
    (r : EloPairResult) × (calculate_elo_pair by_factor usual stronger weaker ≡ ok r)
    × IsWithin usual stronger r.participant_a
    × IsWithin usual weaker r.participant_b
calculate_elo_pair-IsWithin_example =
    calculate_elo_pair-IsWithin by_factor usual stronger weaker they-IsRatable
