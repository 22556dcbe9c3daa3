-- ===== src/Examples/Playing.antt =====
-- A match that is played to the end.
use arena_core.Prelude.{◌≡◌, ◌≤◌, ◌+◌, refl, true, List, [], ◌∷◌, any, length}
use arena_core.Prelude.Outcome.{ok}
use arena_core.Matches.Status.{
  MatchStatus, created, awaiting_ready, ready, in_progress, awaiting_result, completed,
  assert_match_transition, transitions,
}
use arena_core.Matches.Courses.{
  Course, here, next, steps_left, is_awaiting_result, Course-length, Course-completed,
}
use arena_core.Matches.Outcomes.{
  derive_outcome, canonical, by_scores, side_a, side_b, derive_outcome-by_scores,
}

abbrev played_states : List MatchStatus
played_states = awaiting_ready ∷ ready ∷ in_progress ∷ awaiting_result ∷ completed ∷ []

played_to_the_end : Course created played_states completed
unfolding assert_match_transition transitions
played_to_the_end = next refl (next refl (next refl (next refl (next refl here))))

-- `Matches.Courses.Course-length` for the whole course.
Course-length_example : length played_states + steps_left completed ≤ steps_left created
Course-length_example = Course-length played_to_the_end

-- `Matches.Courses.Course-completed` for the whole course.
Course-completed_example : any is_awaiting_result played_states ≡ true
Course-completed_example = Course-completed played_to_the_end

-- `Matches.Outcomes.derive_outcome-by_scores` for three goals to one.
derive_outcome-by_scores_example :
    (derive_outcome
        (canonical 3 1)
        (record { id = 11; side = side_a } ∷ record { id = 12; side = side_b } ∷ [])
      ≡ ok (by_scores 11 12 3 1))
    × (derive_outcome
          (canonical 3 1)
          (record { id = 12; side = side_b } ∷ record { id = 11; side = side_a } ∷ [])
        ≡ ok (by_scores 11 12 3 1))
derive_outcome-by_scores_example = derive_outcome-by_scores 11 12 3 1
