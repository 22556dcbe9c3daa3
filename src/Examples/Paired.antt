-- ===== src/Examples/Paired.antt =====
-- A player who searches, and two others for the same game.
use arena_core.Prelude.{
  ℕ, ◌+◌, ◌≡◌, ◌≤◌, refl, Bool, true, false, some, [], ◌∷◌, All, text_eq, codes, sort_by,
}
use arena_core.Matchmaking.Types.{searching, crossplay_group, fa, MatchmakingRequest}
use arena_core.Matchmaking.Compatibility.{
  is_searching, is_same_platform, same_language, other_language, region_text, same_region,
  other_region, reason_if, further_incompatibilities, incompatibilities, compatible_score,
  result_of, evaluate_compatibility,
}
use arena_core.Matchmaking.Symmetry.{evaluate_compatibility-symmetric}
use arena_core.Matchmaking.Matched.{IsMatched, evaluate_compatibility-IsMatched}
use arena_core.Matchmaking.Engine.{
  Candidate, evaluated, ranks_before, compatible_candidates, best_candidate,
}
use arena_core.Matchmaking.Best.{IsNoBetter, best_candidate-IsBest}

abbrev player : ℕ → ℕ → MatchmakingRequest
player id platform = record {
  id = id;
  user_id = id + 10;
  user_game_account_id = id + 20;
  game_id = 1;
  game_mode_id = 2;
  game_ruleset_id = 3;
  game_platform_id = platform;
  crossplay_group_id = 4;
  status = searching;
  search_scope = crossplay_group;
  preferences = record { language = some fa; region = some (codes "ir") };
  priority = 0;
  account_verified = true;
  catalog_valid = true;
  created_at = 50;
  expires_at = 200;
  version = 1;
}

abbrev idle : ℕ → Bool
idle id = false

evaluate_compatibility-symmetric_example :
    evaluate_compatibility (player 1 5) (player 2 6) 100 true
    ≡ evaluate_compatibility (player 2 6) (player 1 5) 100 true
evaluate_compatibility-symmetric_example =
    evaluate_compatibility-symmetric (player 1 5) (player 2 6) 100 true

evaluate_compatibility-IsMatched_example :
    IsMatched (player 1 5) (player 2 6) 100
    × (100 ≤ (evaluate_compatibility (player 1 5) (player 2 6) 100 false).score)
    × ((evaluate_compatibility (player 1 5) (player 2 6) 100 false).score ≤ 118)
unfolding is_searching is_same_platform other_language region_text other_region reason_if
    further_incompatibilities incompatibilities result_of evaluate_compatibility text_eq
evaluate_compatibility-IsMatched_example =
    evaluate_compatibility-IsMatched (player 1 5) (player 2 6) 100 false refl

-- The player on the same platform fits better.
abbrev better : Candidate
better = record {
  request = player 3 5;
  result = record { compatible = true; reasons = []; score = 118 };
}

best_is_better : best_candidate idle 100 (player 1 5) (player 2 6 ∷ (player 3 5 ∷ [])) ≡ some better
unfolding is_searching is_same_platform same_language other_language region_text same_region
    other_region reason_if further_incompatibilities incompatibilities compatible_score result_of
    evaluate_compatibility text_eq evaluated ranks_before compatible_candidates best_candidate
    sort_by
best_is_better = refl

best_candidate-IsBest_example :
    IsMatched (player 1 5) (player 3 5) 100
    × All (IsNoBetter idle 100 (player 1 5) better) (player 2 6 ∷ (player 3 5 ∷ []))
best_candidate-IsBest_example =
    best_candidate-IsBest idle 100 (player 1 5) (player 2 6 ∷ (player 3 5 ∷ [])) better
      best_is_better
