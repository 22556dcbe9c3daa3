-- ===== src/Matchmaking/Engine.antt =====
-- The choice of the best candidate
-- (packages/matchmaking/src/application/matchmaking-engine.ts). Which requests have an active proposal
-- is an argument.
use arena_core.Prelude.{
  ℕ, Bool, ◌&&◌, ◌||◌, Option, none, some, List, [], ◌∷◌, ltb, leb, ◌==◌, keep, sort_by, map,
}
use arena_core.Matchmaking.Types.{MatchmakingRequest, CompatibilityResult}
use arena_core.Matchmaking.Compatibility.{evaluate_compatibility}

pub record Candidate : Type 0 where
  pub request : MatchmakingRequest
  pub result : CompatibilityResult

unfoldable pub evaluated : (ℕ → Bool) → ℕ → MatchmakingRequest → MatchmakingRequest → Candidate
evaluated active now source request = record {
  request = request;
  result = evaluate_compatibility source request now (active source.id || active request.id);
}

-- The order of the sort: by the score, the greatest first, then the time of creation, then the identifier.
unfoldable pub ranks_before : Candidate → Candidate → Bool
ranks_before left right =
    ltb right.result.score left.result.score
    || (left.result.score == right.result.score
        && (ltb left.request.created_at right.request.created_at
            || (left.request.created_at == right.request.created_at
                && leb left.request.id right.request.id)))

abbrev pub first : {A : Type 0} → List A → Option A
first [] = none
first (x ∷ xs) = some x

unfoldable pub compatible_candidates :
    (ℕ → Bool) → ℕ → MatchmakingRequest → List MatchmakingRequest → List Candidate
compatible_candidates active now source candidates =
    keep (λ (c : Candidate). c.result.compatible) (map (evaluated active now source) candidates)

unfoldable pub best_candidate :
    (ℕ → Bool) → ℕ → MatchmakingRequest → List MatchmakingRequest → Option Candidate
best_candidate active now source candidates =
    first (sort_by ranks_before (compatible_candidates active now source candidates))
