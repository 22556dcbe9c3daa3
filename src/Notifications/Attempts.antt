-- ===== src/Notifications/Attempts.antt =====
-- What recording an attempt commits
-- (packages/notifications/src/application/notification-delivery-service.ts).
use arena_core.Prelude.{
  ℕ, suc, ◌+◌, ◌≡◌, ◌≤◌, refl, Bool, true, false, not, ◌&&◌, ◌||◌, List, [], ◌∷◌, arith, ltb, leb,
  ◌==◌, ==_refl, any, all, contains, &&_split,
}
use arena_core.Prelude.Outcome.{ok}
use arena_core.Prelude.Action.{and_then, refuse_if}
use arena_core.Notifications.Types.{OutboxRecord, AttemptRecord, OutboxStore}
use arena_core.Notifications.Outbox.{
  error_check, is_named, attempt_checks, same_attempt, append_delivery_attempt,
}
use arena_core.Notifications.Delivery.{Round, AttemptOutcome, new_attempt, attempt}

-- The attempt has none of the identifiers, and if it is of the message, a number up to the count.
unfoldable pub is_earlier : List ℕ → ℕ → ℕ → AttemptRecord → Bool
is_earlier ids message_id count a =
    not (contains ids a.id)
    && (not (a.outbox_message_id == message_id) || leb a.attempt_number count)

-- The store after the attempt of a round.
unfoldable pub with_attempt : Round → OutboxRecord → AttemptOutcome → OutboxStore → OutboxStore
with_attempt round m outcome s = record s { attempts = new_attempt round m outcome ∷ s.attempts }

-- What an attempt's outcome is to say for its row to pass the CHECK constraints.
unfoldable pub IsRecordable : AttemptOutcome → Type 0
IsRecordable outcome =
    (error_check outcome.status outcome.error_code outcome.error_category ≡ true)
    × (is_named outcome.provider ≡ true)

module _ (ids : List ℕ) (round : Round) (m : OutboxRecord) (outcome : AttemptOutcome) where
  differs :
      (a : AttemptRecord)
      → is_earlier (round.attempt_id ∷ ids) m.id m.attempt_count a ≡ true
      → same_attempt (new_attempt round m outcome) a ≡ false
  unfolding is_earlier same_attempt new_attempt
  differs a h = ground arith

  none_clashes :
      (attempts : List AttemptRecord)
      → all (is_earlier (round.attempt_id ∷ ids) m.id m.attempt_count) attempts ≡ true
      → any (same_attempt (new_attempt round m outcome)) attempts ≡ false
  none_clashes [] h = refl
  none_clashes (a ∷ attempts) h =
      let both =
        &&_split (is_earlier (round.attempt_id ∷ ids) m.id m.attempt_count a)
          (all (is_earlier (round.attempt_id ∷ ids) m.id m.attempt_count) attempts) h in
      rw (differs a both.0, none_clashes attempts both.1) refl

  stays_earlier :
      (a : AttemptRecord)
      → is_earlier (round.attempt_id ∷ ids) m.id m.attempt_count a ≡ true
      → is_earlier ids m.id (suc m.attempt_count) a ≡ true
  unfolding is_earlier
  stays_earlier a h = ground arith

  all_earlier :
      (attempts : List AttemptRecord)
      → all (is_earlier (round.attempt_id ∷ ids) m.id m.attempt_count) attempts ≡ true
      → all (is_earlier ids m.id (suc m.attempt_count)) attempts ≡ true
  all_earlier [] h = refl
  all_earlier (a ∷ attempts) h =
      let both =
        &&_split (is_earlier (round.attempt_id ∷ ids) m.id m.attempt_count a)
          (all (is_earlier (round.attempt_id ∷ ids) m.id m.attempt_count) attempts) h in
      rw (stays_earlier a both.0, all_earlier attempts both.1) refl

  module _ (s : OutboxStore)
      (fresh : all (is_earlier (round.attempt_id ∷ ids) m.id m.attempt_count) s.attempts
        ≡ true) where
    -- The attempt's number is new, so that its row is inserted.
    pub attempt-commits :
        round.clock 0 ≤ round.clock 1
        → IsRecordable outcome
        → attempt round m outcome s
          ≡ (ok (new_attempt round m outcome), with_attempt round m outcome s)
    unfolding attempt append_delivery_attempt and_then refuse_if attempt_checks with_attempt
        IsRecordable new_attempt
    attempt-commits in_order recordable =
        let positive : ltb 0 (m.attempt_count + 1) ≡ true = ground arith in
        let ordered : leb (round.clock 0) (round.clock 1) ≡ true = ground arith in
        rw (positive, ordered, recordable.1, recordable.0, none_clashes s.attempts fresh) refl

    -- The attempts are then earlier than the next one.
    pub with_attempt-fresh :
        contains ids round.attempt_id ≡ false
        → all (is_earlier ids m.id (suc m.attempt_count)) (with_attempt round m outcome s).attempts
          ≡ true
    unfolding with_attempt is_earlier new_attempt
    with_attempt-fresh apart =
        let last : leb (m.attempt_count + 1) (suc m.attempt_count) ≡ true = ground arith in
        rw (apart, ==_refl m.id, last) (all_earlier s.attempts fresh)
