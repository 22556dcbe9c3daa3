-- ===== src/Matches/Results.antt =====
-- `validateAndCanonicalizeResult` (packages/matches/src/domain/match-result-policies.ts), on the JSON
-- value that a player submits. A side is taken to be a string.
use arena_core.Prelude.{
  ℕ, Bool, true, false, not, ◌&&◌, ◌||◌, Option, none, some, List, [], ◌∷◌, Text, codes, text_eq,
  leb, ◌==◌, if◌then◌else◌, any,
}
use mathlib.Core.Option
use arena_core.Prelude.{all, ltb, length, suc, sort_by}
use arena_core.Wallet.Policies.{is_space, is_blank}
use arena_core.Prelude.Int.{pos, eqb_ℤ}
use arena_core.Prelude.Outcome.{Outcome, ok, throw}
use arena_core.Finance.Requirement.{
  Json, json_boolean, json_number, json_string, json_array, json_object, Members, no_member, member,
  no_item, item, Items, property,
}
use arena_core.Matches.Outcomes.{
  ResultErrorCode, match_result_invalid, match_result_resolution_invalid, Side, side_a, side_b,
  Score, ResultPayload, same_side, draw, win_loss,
}

abbrev flag_or_none : Option Json → Option Bool
flag_or_none (some (json_boolean b)) = some b
flag_or_none _ = none

abbrev is_true : Option Json → Bool
is_true (some (json_boolean b)) = b
is_true _ = false

abbrev settings_allow : Option Json → Bool
settings_allow (some (json_object settings)) =
    elim (flag_or_none (property (codes "drawAllowed") settings)) [
      | some b ↦ b
      | none ↦ not (
          is_true (property (codes "extraTime") settings)
          || is_true (property (codes "penalties") settings))
    ]
settings_allow _ = true

-- `drawAllowed`, on the configuration of the match's rules.
unfoldable pub draw_allowed : Json → Bool
draw_allowed (json_object config) = elim (flag_or_none (property (codes "drawAllowed") config)) [
  | some b ↦ b
  | none ↦ settings_allow (property (codes "settings") config)
]
draw_allowed _ = true

-- Whether each key of an object is one of these.
unfoldable pub only_keys : List Text → Members → Bool
only_keys allowed no_member = true
only_keys allowed (member key value rest) = any (text_eq key) allowed && only_keys allowed rest

abbrev pub is_one : Option Json → Bool
is_one (some (json_number n)) = eqb_ℤ n (pos 1)
is_one _ = false

abbrev pub is_text : Text → Option Json → Bool
is_text t (some (json_string s)) = text_eq s t
is_text t _ = false

abbrev pub score_of : Option Json → Option ℕ
score_of (some (json_number (pos n))) = if leb n 99 then some n else none
score_of _ = none

abbrev pub side_of : Option Json → Option Side
side_of value =
    if is_text (codes "SIDE_A") value
    then some side_a
    else if is_text (codes "SIDE_B") value
    then some side_b
    else none

abbrev pub score_of_parts : Option Side → Option ℕ → Option Score
score_of_parts (some side) (some score) = some (record { side = side; score = score })
score_of_parts _ _ = none

abbrev pub score_keys : List Text
score_keys = codes "side" ∷ codes "score" ∷ []

-- One candidate of `input.scores`.
unfoldable pub parse_score : Json → Option Score
parse_score (json_object candidate) =
    if only_keys score_keys candidate
    then score_of_parts (side_of (property (codes "side") candidate))
        (score_of (property (codes "score") candidate))
    else none
parse_score _ = none

-- The callback of `map`, on each element of `input.scores`.
unfoldable pub parse_scores : Items → Option (List Score)
parse_scores no_item = some []
parse_scores (item x xs) = elim (parse_score x) [
  | none ↦ none
  | some score ↦ elim (parse_scores xs) [ none ↦ none | some scores ↦ some (score ∷ scores) ]
]

unfoldable pub count_items : Items → ℕ
count_items no_item = 0
count_items (item x xs) = suc (count_items xs)

-- `left.side.localeCompare(right.side)` is at most 0.
abbrev pub side_leb : Score → Score → Bool
side_leb left right = not (same_side left.side side_b && same_side right.side side_a)

-- `input.scores` as an array of two candidates, parsed and sorted by side.
unfoldable pub sorted_scores : Option Json → Option (List Score)
sorted_scores (some (json_array candidates)) =
    if count_items candidates == 2
    then Option.map (sort_by side_leb) (parse_scores candidates)
    else none
sorted_scores _ = none

abbrev pub outcome_text : Bool → Text
outcome_text equal = if equal then codes "DRAW" else codes "WIN_LOSS"

abbrev pub claims_otherwise : Bool → Option Json → Bool
claims_otherwise equal none = false
claims_otherwise equal (some value) = not (is_text (outcome_text equal) (some value))

-- The checks on the sorted scores, and the payload that is made of them.
unfoldable pub payload_of_scores :
    Members → Json → List Score → Outcome ResultErrorCode ResultPayload
payload_of_scores input config (a ∷ (b ∷ rest)) =
    let equal = a.score == b.score in
    if not (same_side a.side side_a) || not (same_side b.side side_b)
    then throw match_result_invalid
    else if claims_otherwise equal (property (codes "outcome") input)
    then throw match_result_invalid
    else if equal && not (draw_allowed config)
    then throw match_result_invalid
    else ok (record { scores = a ∷ (b ∷ rest); outcome = if equal then draw else win_loss })
payload_of_scores input config _ = throw match_result_invalid

abbrev pub payload_keys : List Text
payload_keys = codes "schemaVersion" ∷ codes "type" ∷ codes "scores" ∷ codes "outcome" ∷ []

-- The checks on the object itself.
abbrev pub is_score_object : Members → Bool
is_score_object input =
    only_keys payload_keys input
    && is_one (property (codes "schemaVersion") input)
    && is_text (codes "SCORE") (property (codes "type") input)

abbrev pub payload_or_throw :
    Members → Json → Option (List Score) → Outcome ResultErrorCode ResultPayload
payload_or_throw input config none = throw match_result_invalid
payload_or_throw input config (some scores) = payload_of_scores input config scores

unfoldable pub validate_and_canonicalize_result :
    Json → Json → Outcome ResultErrorCode ResultPayload
validate_and_canonicalize_result (json_object input) config =
    if is_score_object input
    then payload_or_throw input config (sorted_scores (property (codes "scores") input))
    else throw match_result_invalid
validate_and_canonicalize_result _ config = throw match_result_invalid

pub data ResolutionReason : Type 0 where
  submission_error operational_correction other_resolution : ResolutionReason

abbrev is_other_resolution : ResolutionReason → Bool
is_other_resolution other_resolution = true
is_other_resolution _ = false

-- `trim`: without the spaces at the start and at the end.
unfoldable pub drop_spaces : Text → Text
drop_spaces [] = []
drop_spaces (c ∷ cs) = let rest = drop_spaces cs in if is_space c then rest else c ∷ cs

unfoldable pub drop_last_spaces : Text → Text
drop_last_spaces [] = []
drop_last_spaces (c ∷ cs) =
    let rest = drop_last_spaces cs in if all is_space (c ∷ cs) then [] else c ∷ rest

abbrev trimmed : Text → Text
trimmed note = drop_last_spaces (drop_spaces note)

-- `note.trim().length`, for the note without its surrounding spaces.
abbrev is_long : Option Text → Bool
is_long none = false
is_long (some note) = ltb 500 (length (trimmed note))

-- `validateResolutionInput`; the type of the reason leaves no value outside the list.
unfoldable pub validate_resolution_input :
    ResolutionReason → Option Text → Outcome ResultErrorCode (Unit {0})
unfolding is_blank
validate_resolution_input reason note =
    if is_other_resolution reason && is_blank note || is_long note
    then throw match_result_resolution_invalid
    else ok tt
