-- ===== src/Matches/Accepted.antt =====
-- What `validateAndCanonicalizeResult` (packages/matches/src/domain/match-result-policies.ts) accepts.
use arena_core.Prelude.{
  ℕ, ◌≡◌, refl, sym, true, false, not, ◌&&◌, Option, none, some, List, [], ◌∷◌, codes, ◌==◌,
  Bool-cases, inl, inr, ◌⊎◌, sort_by, arith,
}
use arena_core.Prelude.Outcome.{ok, throw}
use arena_core.Finance.Requirement.{Json, json_array, json_object, Members, no_item, item, property}
use arena_core.Matches.Outcomes.{
  match_result_invalid, Side, side_a, side_b, Score, ResultPayload, canonical,
}
use arena_core.Matches.Results.{
  draw_allowed, only_keys, is_one, is_text, side_leb, sorted_scores, claims_otherwise,
  payload_of_scores, payload_keys, is_score_object, payload_or_throw,
  validate_and_canonicalize_result,
}
use arena_core.Matches.Candidates.{IsScore, parse_score-IsScore, sorted_scores-known}

-- What the checks on the sorted scores leave.
record IsChecked (input : Members) (config : Json) (m n : ℕ) (p : ResultPayload) : Type 0 where
  claim : claims_otherwise (m == n) (property (codes "outcome") input) ≡ false
  draws : (m == n) ≡ true → draw_allowed config ≡ true
  payload : p ≡ canonical m n

module _ (input : Members) (config : Json) (m n : ℕ) {p : ResultPayload} where
  payload-IsChecked :
      payload_of_scores input config
          (record { side = side_a; score = m } ∷ record { side = side_b; score = n } ∷ [])
        ≡ ok p
      → IsChecked input config m n p
  unfolding payload_of_scores
  payload-IsChecked h =
      elim (Bool-cases (claims_otherwise (m == n) (property (codes "outcome") input))) [
        | inl claims ↦
            let e : throw match_result_invalid ≡ ok p = rw claims at h in absurd (ground arith)
        | inr agrees ↦ elim (Bool-cases (m == n && not (draw_allowed config))) [
          | inl refused ↦
              let e : throw match_result_invalid ≡ ok p = rw (agrees, refused) at h in
              absurd (ground arith)
          | inr allowed ↦
              let e : ok (canonical m n) ≡ ok p = rw (agrees, allowed) at h in
              let same : canonical m n ≡ p = cc e in
              record { claim = agrees; draws = λ equal. ground arith; payload = sym same }
        ]
      ]

-- What is known of a payload that was accepted.
pub record IsAccepted (value config : Json) (p : ResultPayload) : Type 0 where
  pub input : Members
  pub object : value ≡ json_object input
  pub keys : only_keys payload_keys input ≡ true
  pub version : is_one (property (codes "schemaVersion") input) ≡ true
  pub score_type : is_text (codes "SCORE") (property (codes "type") input) ≡ true
  pub x : Json
  pub y : Json
  pub m : ℕ
  pub n : ℕ
  pub candidates : property (codes "scores") input ≡ some (json_array (item x (item y no_item)))
  pub scores : (IsScore x side_a m × IsScore y side_b n) ⊎ (IsScore x side_b n × IsScore y side_a m)
  pub claim : claims_otherwise (m == n) (property (codes "outcome") input) ≡ false
  pub draws : (m == n) ≡ true → draw_allowed config ≡ true
  pub payload : p ≡ canonical m n

-- The scores that the candidates submit, in either order.
record AreSubmitted (input : Members) (config x y : Json) (p : ResultPayload) : Type 0 where
  m : ℕ
  n : ℕ
  scores : (IsScore x side_a m × IsScore y side_b n) ⊎ (IsScore x side_b n × IsScore y side_a m)
  checked : IsChecked input config m n p

sorted-AreSubmitted :
    (input : Members) (config x y : Json) (sa sb : Side) (m n : ℕ) {p : ResultPayload}
    → IsScore x sa m
    → IsScore y sb n
    → payload_of_scores input config
        (sort_by side_leb (record { side = sa; score = m } ∷ record { side = sb; score = n } ∷ []))
      ≡ ok p
    → AreSubmitted input config x y p
unfolding sort_by payload_of_scores
sorted-AreSubmitted input config x y side_a side_b m n sx sy h = record {
  m = m;
  n = n;
  scores = inl (sx, sy);
  checked = payload-IsChecked input config m n h;
}
sorted-AreSubmitted input config x y side_b side_a m n sx sy h = record {
  m = n;
  n = m;
  scores = inr (sx, sy);
  checked = payload-IsChecked input config n m h;
}
sorted-AreSubmitted input config x y side_a side_a m n sx sy h = absurd (ground arith)
sorted-AreSubmitted input config x y side_b side_b m n sx sy h = absurd (ground arith)

object-IsAccepted :
    (input : Members) (config : Json) (o : Option (List Score)) {p : ResultPayload}
    → sorted_scores (property (codes "scores") input) ≡ o
    → is_score_object input ≡ true
    → payload_or_throw input config o ≡ ok p
    → IsAccepted (json_object input) config p
object-IsAccepted input config none known shaped h = absurd (ground arith)
object-IsAccepted input config (some scores) {p} known shaped h =
    let (xs, unsorted, value, two, sorted) =
      sorted_scores-known (property (codes "scores") input) known in
    let e : payload_of_scores input config (sort_by side_leb unsorted) ≡ ok p = rw sorted h in
    let e' : payload_of_scores input config (sort_by side_leb (two.a ∷ (two.b ∷ []))) ≡ ok p =
      rw two.list at e in
    let done =
      sorted-AreSubmitted input config two.x two.y two.a.side two.b.side two.a.score two.b.score
        (parse_score-IsScore two.x two.first) (parse_score-IsScore two.y two.second) e' in
    record {
      input = input;
      object = refl;
      keys = ground arith;
      version = ground arith;
      score_type = ground arith;
      x = two.x;
      y = two.y;
      m = done.m;
      n = done.n;
      candidates = rw two.items at value;
      scores = done.scores;
      claim = done.checked.claim;
      draws = done.checked.draws;
      payload = done.checked.payload;
    }

-- A value that `validateAndCanonicalizeResult` accepts is an object of the allowed keys, version and type
-- whose scores are two candidates, one for each side in either order, each an object of the allowed keys
-- with a score of at most 99; the payload holds their scores, A first, with the outcome that they give,
-- which the value does not contradict and which is a draw only where the rules allow one.
pub validate-IsAccepted :
    (input config : Json) {p : ResultPayload}
    → validate_and_canonicalize_result input config ≡ ok p
    → IsAccepted input config p
unfolding validate_and_canonicalize_result
validate-IsAccepted (json_object input) config {p} h = elim (Bool-cases (is_score_object input)) [
  | inl shaped ↦
      object-IsAccepted input config (sorted_scores (property (codes "scores") input)) refl shaped
        (rw shaped at h)
  | inr other ↦ let e : throw match_result_invalid ≡ ok p = rw other at h in absurd (ground arith)
]
validate-IsAccepted _ config h = absurd (ground arith)
