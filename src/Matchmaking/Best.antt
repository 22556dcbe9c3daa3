-- ===== src/Matchmaking/Best.antt =====
-- The best candidate has the greatest score
-- (packages/matchmaking/src/application/matchmaking-engine.ts).
use mathlib.Core.Path.{subst}
use arena_core.Prelude.{
  ℕ, ◌≡◌, ◌≤◌, refl, Bool, true, false, ◌||◌, some, List, [], ◌∷◌, arith, sort_by, insert_by, All,
  All-map, All-sort_by, length, length-sort_by, Bool-cases, inl, inr,
}
use arena_core.Matchmaking.Types.{MatchmakingRequest}
use arena_core.Matchmaking.Compatibility.{evaluate_compatibility}
use arena_core.Matchmaking.Matched.{IsMatched, evaluate_compatibility-IsMatched}
use arena_core.Matchmaking.Engine.{
  Candidate, evaluated, ranks_before, first, compatible_candidates, best_candidate,
}

-- No candidate of the list has a greater score.
IsBest : List Candidate → Candidate → Type 0
IsBest candidates best = All (λ (c : Candidate). c.result.score ≤ best.result.score) candidates

-- What holds of a list's first element, if it has one.
abbrev Leads : (Candidate → Type 0) → List Candidate → Type 0
Leads P [] = Unit
Leads P (c ∷ cs) = P c

leads :
    (P : Candidate → Type 0) {b : Candidate} (cs : List Candidate)
    → Leads P cs
    → first cs ≡ some b
    → P b
leads P [] h e = cc
leads P (c ∷ cs) h e = subst P (cc e) h

led : (P : Candidate → Type 0) (cs : List Candidate) → All P cs → Leads P cs
led P [] h = tt
led P (c ∷ cs) h = h.0

length-zero : (cs : List Candidate) → length cs ≡ 0 → cs ≡ []
length-zero [] h = refl
length-zero (c ∷ cs) h = absurd (omega arith)

rank-score : (c d : Candidate) → ranks_before c d ≡ true → d.result.score ≤ c.result.score
unfolding ranks_before
rank-score c d h = ground arith

late-score : (c d : Candidate) → ranks_before c d ≡ false → c.result.score ≤ d.result.score
unfolding ranks_before
late-score c d h = ground arith

insert-IsBest :
    (c : Candidate) (candidates sorted : List Candidate)
    → (sorted ≡ [] → candidates ≡ [])
    → Leads (IsBest candidates) sorted
    → Leads (IsBest (c ∷ candidates)) (insert_by ranks_before c sorted)
unfolding IsBest
insert-IsBest c candidates [] empty h = rw (empty refl) (omega arith, tt)
insert-IsBest c candidates (d ∷ sorted) empty h = elim (Bool-cases (ranks_before c d)) [
  | inl before ↦
      let higher = rank-score c d before in
      rw before (
        omega arith,
        All-map (λ (x : Candidate). x.result.score ≤ d.result.score)
            (λ (x : Candidate). x.result.score ≤ c.result.score) candidates (λ x l. omega arith) h,
      )
  | inr after ↦ let higher = late-score c d after in rw after (higher, h)
]

sort-IsBest :
    (candidates : List Candidate) → Leads (IsBest candidates) (sort_by ranks_before candidates)
unfolding sort_by
sort-IsBest [] = tt
sort-IsBest (c ∷ candidates) =
    insert-IsBest c candidates (sort_by ranks_before candidates)
      (λ none_sorted.
        let same = length-sort_by ranks_before candidates in
        let zero_sorted : length (sort_by ranks_before candidates) ≡ 0 = rw none_sorted refl in
        length-zero candidates (omega arith))
      (sort-IsBest candidates)

module _ (active : ℕ → Bool) (now : ℕ) (source : MatchmakingRequest) where
  Matches : Candidate → Type 0
  Matches c = IsMatched source c.request now

  All-Matches :
      (requests : List MatchmakingRequest)
      → All Matches (compatible_candidates active now source requests)
  unfolding compatible_candidates evaluated Matches
  All-Matches [] = tt
  All-Matches (r ∷ requests) =
      elim (Bool-cases
        (evaluate_compatibility source r now (active source.id || active r.id)).compatible) [
          | inl fits ↦ rw fits (
            (evaluate_compatibility-IsMatched source r now (active source.id || active r.id)
                fits).0,
            All-Matches requests,
          )
          | inr differs ↦ rw differs (All-Matches requests)
        ]

  -- The request does not fit better than a candidate.
  pub IsNoBetter : Candidate → MatchmakingRequest → Type 0
  IsNoBetter best r =
      (evaluated active now source r).result.compatible ≡ true
      → (evaluated active now source r).result.score ≤ best.result.score

  All-IsNoBetter :
      (requests : List MatchmakingRequest) (best : Candidate)
      → IsBest (compatible_candidates active now source requests) best
      → All (IsNoBetter best) requests
  unfolding compatible_candidates evaluated IsBest IsNoBetter
  All-IsNoBetter [] best h = tt
  All-IsNoBetter (r ∷ requests) best h =
      elim (Bool-cases
        (evaluate_compatibility source r now (active source.id || active r.id)).compatible) [
          | inl fits ↦ let both = rw fits at h in (λ f. both.0, All-IsNoBetter requests best both.1)
          | inr differs ↦ let rest = rw differs at h in (λ f. cc, All-IsNoBetter requests best rest)
        ]

-- The best candidate may be matched with the source, and no candidate that is compatible with the source has
-- a greater score.
pub best_candidate-IsBest :
    (active : ℕ → Bool) (now : ℕ) (source : MatchmakingRequest) (requests : List MatchmakingRequest)
    (best : Candidate)
    → best_candidate active now source requests ≡ some best
    → IsMatched source best.request now × All (IsNoBetter active now source best) requests
unfolding best_candidate Matches
best_candidate-IsBest active now source requests best found =
    let fitting = compatible_candidates active now source requests in
    let sorted = sort_by ranks_before fitting in
    let fits =
      leads (Matches active now source) sorted
        (led (Matches active now source) sorted (
          All-sort_by (Matches active now source) ranks_before fitting
            (All-Matches active now source requests)))
        found in
    (
      fits,
      All-IsNoBetter active now source requests best
          (leads (IsBest fitting) sorted (sort-IsBest fitting) found),
    )
