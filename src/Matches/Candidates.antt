-- ===== src/Matches/Candidates.antt =====
-- The two candidates of a score result, as `validateAndCanonicalizeResult`
-- (packages/matches/src/domain/match-result-policies.ts) parses and sorts them.
use arena_core.Prelude.{
  ℕ, ◌≡◌, refl, sym, ◌≤◌, true, Option, none, some, List, [], ◌∷◌, Text, codes, leb, ◌==◌,
  Bool-cases, Option-cases, inl, inr, sort_by, arith,
}
use arena_core.Prelude.Int.{pos, negsuc}
use arena_core.Finance.Requirement.{
  Json, json_null, json_boolean, json_number, json_fraction, json_string, json_array, json_object,
  Members, Items, no_item, item, property,
}
use arena_core.Matches.Outcomes.{Side, side_a, side_b, Score}
use arena_core.Matches.Results.{
  only_keys, is_text, score_of, side_of, score_of_parts, score_keys, parse_score, parse_scores,
  count_items, side_leb, sorted_scores,
}

abbrev side_text : Side → Text
side_text side_a = codes "SIDE_A"
side_text side_b = codes "SIDE_B"

-- The candidate is an object with a side and a score of at most 99, and nothing else.
pub record IsScore (x : Json) (side : Side) (n : ℕ) : Type 0 where
  pub members : Members
  pub object : x ≡ json_object members
  pub keys : only_keys score_keys members ≡ true
  pub has_side : is_text (side_text side) (property (codes "side") members) ≡ true
  pub has_score : property (codes "score") members ≡ some (json_number (pos n))
  pub bounded : n ≤ 99

score_of-known :
    (value : Option Json) {n : ℕ}
    → score_of value ≡ some n
    → (value ≡ some (json_number (pos n))) × (n ≤ 99)
score_of-known (some (json_number (pos m))) {n} h = elim (Bool-cases (leb m 99)) [
  | inl small ↦
      let e : some m ≡ some n = rw small at h in
      let same : m ≡ n = cc e in (rw same refl, ground (arith, same, small))
  | inr large ↦ let e : none ≡ some n = rw large at h in absurd (ground arith)
]
score_of-known none h = absurd (ground arith)
score_of-known (some json_null) h = absurd (ground arith)
score_of-known (some (json_boolean b)) h = absurd (ground arith)
score_of-known (some (json_number (negsuc m))) h = absurd (ground arith)
score_of-known (some (json_fraction t)) h = absurd (ground arith)
score_of-known (some (json_string t)) h = absurd (ground arith)
score_of-known (some (json_array t)) h = absurd (ground arith)
score_of-known (some (json_object t)) h = absurd (ground arith)

side_of-known :
    (value : Option Json) {side : Side}
    → side_of value ≡ some side
    → is_text (side_text side) value ≡ true
side_of-known value {side} h = elim (Bool-cases (is_text (codes "SIDE_A") value)) [
  | inl first ↦
      let e : some side_a ≡ some side = rw first at h in
      let same : side_a ≡ side = cc e in rw (sym same) first
  | inr other ↦ elim (Bool-cases (is_text (codes "SIDE_B") value)) [
    | inl second ↦
        let e : some side_b ≡ some side = rw (other, second) at h in
        let same : side_b ≡ side = cc e in rw (sym same) second
    | inr neither ↦ let e : none ≡ some side = rw (other, neither) at h in absurd (ground arith)
  ]
]

parts_known :
    (side : Option Side) (score : Option ℕ) {s : Score}
    → score_of_parts side score ≡ some s
    → (side ≡ some s.side) × (score ≡ some s.score)
parts_known (some side) (some n) {s} h =
    let same : record { side = side; score = n } ≡ s = cc h in rw (sym same) (refl, refl)
parts_known none score h = absurd (ground arith)
parts_known (some side) none h = absurd (ground arith)

pub parse_score-IsScore : (x : Json) {s : Score} → parse_score x ≡ some s → IsScore x s.side s.score
unfolding parse_score
parse_score-IsScore (json_object c) {s} h = elim (Bool-cases (only_keys score_keys c)) [
  | inl keys ↦
      let (side, score) = parts_known _ _ (rw keys at h) in
      let (value, bounded) = score_of-known (property (codes "score") c) score in
      record {
        members = c;
        object = refl;
        keys = keys;
        has_side = side_of-known (property (codes "side") c) side;
        has_score = value;
        bounded = bounded;
      }
  | inr other ↦ let e : none ≡ some s = rw other at h in absurd (ground arith)
]
parse_score-IsScore _ h = absurd (ground arith)

-- Two candidates, parsed.
pub record AreTwo (xs : Items) (scores : List Score) : Type 0 where
  pub x : Json
  pub y : Json
  pub a : Score
  pub b : Score
  pub items : xs ≡ item x (item y no_item)
  pub first : parse_score x ≡ some a
  pub second : parse_score y ≡ some b
  pub list : scores ≡ a ∷ (b ∷ [])

parse_scores-AreTwo :
    (xs : Items) {scores : List Score}
    → count_items xs ≡ 2
    → parse_scores xs ≡ some scores
    → AreTwo xs scores
unfolding parse_scores count_items
parse_scores-AreTwo no_item c h = absurd (omega arith)
parse_scores-AreTwo (item x no_item) c h = absurd (omega arith)
parse_scores-AreTwo (item x (item y (item z xs))) c h = absurd (omega arith)
parse_scores-AreTwo (item x (item y no_item)) {scores} c h = elim (Option-cases (parse_score x)) [
  | inl missing ↦
      let e : none ≡ some scores = rw (parse_scores, missing) at h in absurd (ground arith)
  | inr (a, first) ↦ elim (Option-cases (parse_score y)) [
    | inl missing ↦
        let e : none ≡ some scores = rw (parse_scores, first, missing) at h in absurd (ground arith)
    | inr (b, second) ↦
        let e : some (a ∷ (b ∷ [])) ≡ some scores = rw (parse_scores, first, second) at h in
        record {
          x = x;
          y = y;
          a = a;
          b = b;
          items = refl;
          first = first;
          second = second;
          list = cc e;
        }
  ]
]

-- The array that the scores come from.
pub sorted_scores-known :
    (value : Option Json) {scores : List Score}
    → sorted_scores value ≡ some scores
    → (xs : Items) × (unsorted : List Score) × (value ≡ some (json_array xs))
      × (AreTwo xs unsorted)
      × (sort_by side_leb unsorted ≡ scores)
unfolding sorted_scores
sorted_scores-known (some (json_array xs)) {scores} h = elim (Bool-cases (count_items xs == 2)) [
  | inl two ↦ elim (Option-cases (parse_scores xs)) [
    | inl missing ↦ let e : none ≡ some scores = rw (two, missing) at h in absurd (ground arith)
    | inr (unsorted, parsed) ↦
        let e : some (sort_by side_leb unsorted) ≡ some scores = rw (two, parsed) at h in
        (xs, unsorted, refl, parse_scores-AreTwo xs (ground (arith, two)) parsed, cc e)
  ]
  | inr other ↦ let e : none ≡ some scores = rw other at h in absurd (ground arith)
]
sorted_scores-known none h = absurd (ground arith)
sorted_scores-known (some json_null) h = absurd (ground arith)
sorted_scores-known (some (json_boolean b)) h = absurd (ground arith)
sorted_scores-known (some (json_number n)) h = absurd (ground arith)
sorted_scores-known (some (json_fraction t)) h = absurd (ground arith)
sorted_scores-known (some (json_string t)) h = absurd (ground arith)
sorted_scores-known (some (json_object t)) h = absurd (ground arith)
