-- ===== src/Examples/Submitted.antt =====
-- A submitted result of three goals to one.
use arena_core.Prelude.{◌≡◌, refl, codes, text_eq, sort_by}
use arena_core.Prelude.Int.{pos}
use arena_core.Prelude.Outcome.{ok}
use arena_core.Finance.Requirement.{
  Json, json_null, json_number, json_string, json_array, json_object, no_member, member, no_item,
  item, property,
}
use arena_core.Matches.Outcomes.{canonical}
use arena_core.Matches.Results.{
  only_keys, parse_score, parse_scores, count_items, sorted_scores, payload_of_scores, draw_allowed,
  validate_and_canonicalize_result,
}
use arena_core.Matches.Accepted.{IsAccepted, validate-IsAccepted}

abbrev three_to_one : Json
three_to_one = json_object (
    member (codes "schemaVersion") (json_number (pos 1)) (
      member (codes "type") (json_string (codes "SCORE")) (
        member (codes "scores")
          (json_array (
            item
              (json_object (
                member (codes "side") (json_string (codes "SIDE_B"))
                  (member (codes "score") (json_number (pos 1)) no_member)))
              (item
                (json_object (
                  member (codes "side") (json_string (codes "SIDE_A"))
                    (member (codes "score") (json_number (pos 3)) no_member)))
                no_item)))
          no_member)))

three_to_one_accepted : validate_and_canonicalize_result three_to_one json_null ≡ ok (canonical 3 1)
unfolding validate_and_canonicalize_result only_keys parse_score parse_scores count_items
    sorted_scores payload_of_scores property text_eq draw_allowed sort_by
three_to_one_accepted = refl

-- `Matches.Accepted.validate-IsAccepted` for three goals to one.
validate-IsAccepted_example : IsAccepted three_to_one json_null (canonical 3 1)
validate-IsAccepted_example = validate-IsAccepted three_to_one json_null three_to_one_accepted
