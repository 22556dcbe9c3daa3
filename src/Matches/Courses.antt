-- ===== src/Matches/Courses.antt =====
-- The courses that a match and a dispute can take (packages/matches/src/domain/match-policies.ts and
-- packages/matches/src/domain/match-dispute-policies.ts).
use arena_core.Prelude.{
  Bool, true, false, refl, ◌||◌, any, Bool-cases, inl, inr, ℕ, ◌+◌, ◌≤◌, ◌<◌, ◌≡◌, List, [], ◌∷◌,
  length, arith,
}
use arena_core.Prelude.Outcome.{ok}
use arena_core.Matches.Status.{
  MatchStatus, created, awaiting_ready, ready, in_progress, awaiting_result, result_conflict,
  completed, cancelled, expired, voided, assert_match_transition, transitions,
}

-- The states that a match goes through after `s`, by transitions that the policies accept.
pub data Course : MatchStatus → List MatchStatus → MatchStatus → Type 0 where
  here : {s : MatchStatus} → Course s [] s
  next :
      {s t u : MatchStatus} {ts : List MatchStatus}
      → assert_match_transition s t ≡ ok tt
      → Course t ts u
      → Course s (t ∷ ts) u

-- How many transitions are left at most.
abbrev pub steps_left : MatchStatus → ℕ
steps_left created = 6
steps_left awaiting_ready = 5
steps_left ready = 4
steps_left in_progress = 3
steps_left awaiting_result = 2
steps_left result_conflict = 1
steps_left _ = 0

steps_left-transition :
    (s t : MatchStatus) → assert_match_transition s t ≡ ok tt → steps_left t < steps_left s
unfolding assert_match_transition transitions
steps_left-transition s t h = ground arith

-- A match that goes through accepted transitions only changes its state six times at most: the
-- transitions made, and those left from the state that it reaches, are no more than those left from
-- the state that it starts in.
pub Course-length :
    {s u : MatchStatus} {ts : List MatchStatus}
    → Course s ts u
    → length ts + steps_left u ≤ steps_left s
Course-length here = omega arith
Course-length (next {s} {t} h c) = omega (arith, steps_left-transition s t h, Course-length c)

-- Before the match has been played, and after it was called off.
abbrev is_before_result : MatchStatus → Bool
is_before_result created = true
is_before_result awaiting_ready = true
is_before_result ready = true
is_before_result in_progress = true
is_before_result _ = false

abbrev is_called_off : MatchStatus → Bool
is_called_off cancelled = true
is_called_off expired = true
is_called_off voided = true
is_called_off _ = false

abbrev pub is_awaiting_result : MatchStatus → Bool
is_awaiting_result awaiting_result = true
is_awaiting_result _ = false

after_before :
    (s t : MatchStatus)
    → is_before_result s ≡ true
    → assert_match_transition s t ≡ ok tt
    → (is_before_result t || is_awaiting_result t || is_called_off t) ≡ true
unfolding assert_match_transition transitions
after_before s t b h = ground arith

called_off_is_final :
    (s t : MatchStatus)
    → is_called_off s ≡ true
    → assert_match_transition s t ≡ ok tt
    → is_called_off t ≡ true
unfolding assert_match_transition transitions
called_off_is_final s t b h = ground arith

called_off_stays :
    {s u : MatchStatus} {ts : List MatchStatus}
    → Course s ts u
    → is_called_off s ≡ true
    → is_called_off u ≡ true
called_off_stays here b = b
called_off_stays (next {s} {t} h c) b = called_off_stays c (called_off_is_final s t b h)

played :
    {s u : MatchStatus} {ts : List MatchStatus}
    → Course s ts u
    → is_before_result s ≡ true
    → (is_before_result u || is_called_off u) ≡ false
    → any is_awaiting_result ts ≡ true
played here b over = ground arith
played (next {s} {t} h c) b over = elim (Bool-cases (is_before_result t)) [
  | inl before ↦ let rest = played c before over in ground arith
  | inr further ↦ elim (Bool-cases (is_called_off t)) [
    | inl off ↦ let off_too = called_off_stays c off in absurd (ground arith)
    | inr on ↦ let reached = after_before s t b h in ground arith
  ]
]

-- A match that is completed has awaited a result.
pub Course-completed :
    {ts : List MatchStatus} → Course created ts completed → any is_awaiting_result ts ≡ true
Course-completed c = played c refl refl
