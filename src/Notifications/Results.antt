-- ===== src/Notifications/Results.antt =====
-- What one delivery of a message commits
-- (packages/notifications/src/application/notification-delivery-service.ts).
use arena_core.Prelude.{
  ℕ, suc, ◌+◌, ◌*◌, ◌≡◌, ◌≤◌, ◌<◌, refl, true, false, Option, some, List, ◌∷◌, Text, codes, arith,
  all, contains,
}
use arena_core.Prelude.Outcome.{Outcome, ok}
use arena_core.Prelude.Action.{and_then}
use arena_core.Notifications.Types.{
  DeliveryFailure, skipped, permanent_failure, retryable_failure, OutboxRecord, OutboxStore,
}
use arena_core.Notifications.Policies.{
  DeliveryPolicy, is_invalid_delivery_policy, delay_seconds, normalize_locale,
}
use arena_core.Notifications.Outbox.{
  is_open, message_checks, message_by_id, error_check, is_named, Change, moved, transition,
  mark_delivered, schedule_retry, mark_dead_lettered, cancel_outbox, delivered_change, retry_change,
  dead_letter_change, cancel_change,
}
use arena_core.Notifications.Delivery.{
  EmailResult, sent, mail_skipped, mail_failed, EmailInput, RenderedTemplate, Templates, Round,
  AttemptOutcome, success, failure, attempt, succeed, skip, give_up, policy_value, try_later,
}
use arena_core.Notifications.Transitions.{
  IsAllowed, delivered_change-IsAllowed, retry_change-IsAllowed, dead_letter_change-IsAllowed,
  cancel_change-IsAllowed, after_transition, after_transition-checked, after_transition-found,
  transition-commits,
}
use arena_core.Notifications.Attempts.{
  is_earlier, with_attempt, IsRecordable, attempt-commits, with_attempt-fresh,
}
use arena_core.Notifications.Delays.{valid_bounds, retry_delay_seconds-bounded}

-- The provider that a result names.
abbrev pub provider_of : EmailResult → Text
provider_of (sent provider _) = provider
provider_of (mail_skipped provider _) = provider
provider_of (mail_failed _ provider _) = provider

-- The clock does not go back, and the call of the provider returns a result that names it.
pub record IsAnswering (round : Round) : Type 0 where
  pub in_order : round.clock 0 ≤ round.clock 1
  pub answers :
      (input : EmailInput)
      → (result : EmailResult) × (round.send input ≡ some result)
        × (is_named (provider_of result) ≡ true)

-- The store holds the open message, its rows pass the CHECK constraints, its template renders, and
-- its attempts are earlier than the next one.
pub record IsPrepared (templates : Templates) (ids : List ℕ) (id : ℕ) (s : OutboxStore)
    (m : OutboxRecord) : Type 0 where
  pub checked : all message_checks s.messages ≡ true
  pub found : message_by_id id s.messages ≡ some m
  pub opened : is_open m.status ≡ true
  pub rendered :
      (template : RenderedTemplate) × (templates m.notification.notification_type
          (normalize_locale m.notification.locale)
          m.payload_snapshot
        ≡ ok template)
  pub fresh : all (is_earlier ids id m.attempt_count) s.attempts ≡ true

-- The message is closed, or it is scheduled again while attempts are left.
pub data Progressed (templates : Templates) (policy : DeliveryPolicy) (ids : List ℕ) (id : ℕ)
    (round : Round) (m : OutboxRecord)
    : Outcome DeliveryFailure OutboxRecord × OutboxStore → Type 0 where
  closed :
      {m' : OutboxRecord} {s' : OutboxStore}
      → is_open m'.status ≡ false
      → Progressed templates policy ids id round m (ok m', s')
  scheduled :
      {m' : OutboxRecord} {s' : OutboxStore}
      → IsPrepared templates ids id s' m'
      → m'.attempt_count ≡ suc m.attempt_count
      → m'.attempt_count < policy.max_attempts
      → m'.available_at ≤ round.clock 2 + policy.retry_max_seconds * 1000
      → Progressed templates policy ids id round m (ok m', s')

module _ (templates : Templates) (policy : DeliveryPolicy) (ids : List ℕ) (id : ℕ) (round : Round)
    (m : OutboxRecord) (s : OutboxStore) (valid : is_invalid_delivery_policy policy ≡ false)
    (answering : IsAnswering round) (apart : contains ids round.attempt_id ≡ false)
    (prepared : IsPrepared templates (round.attempt_id ∷ ids) m.id s m) where
  -- An attempt, and a transition after it.
  record_and_move :
      (outcome : AttemptOutcome) (change : OutboxRecord → Change)
      → IsRecordable outcome
      → IsAllowed change
      → and_then (attempt round m outcome s) (λ _. transition m.id m.version change) ≡ (
        ok (moved change m),
        after_transition m.id m.version change (with_attempt round m outcome s),
      )
  unfolding and_then with_attempt
  record_and_move outcome change recordable allowed =
      rw (attempt-commits ids round m outcome s prepared.fresh answering.in_order recordable) (
        transition-commits m.id change (with_attempt round m outcome s) m allowed prepared.checked
          prepared.found prepared.opened)

  pub succeed-Progressed :
      (provider : Text) (message_id : Option Text)
      → is_named provider ≡ true
      → Progressed templates policy ids m.id round m (succeed round m provider message_id s)
  unfolding succeed mark_delivered moved delivered_change is_open IsRecordable error_check
  succeed-Progressed provider message_id named =
      let e =
        record_and_move (success provider message_id) (delivered_change (round.clock 2))
          (refl, named) (delivered_change-IsAllowed (round.clock 2)) in
      rw e (closed refl)

  pub skip-Progressed :
      (provider code : Text)
      → is_named provider ≡ true
      → Progressed templates policy ids m.id round m (skip round m provider code s)
  unfolding skip cancel_outbox moved cancel_change is_open IsRecordable error_check
  skip-Progressed provider code named =
      let e =
        record_and_move (failure skipped provider code (codes "POLICY"))
          (cancel_change (round.clock 2) code) (refl, named)
          (cancel_change-IsAllowed (round.clock 2) code) in
      rw e (closed refl)

  pub give_up-Progressed :
      (provider code : Text)
      → is_named provider ≡ true
      → Progressed templates policy ids m.id round m (give_up round m provider code s)
  unfolding give_up mark_dead_lettered moved dead_letter_change is_open IsRecordable error_check
  give_up-Progressed provider code named =
      let e =
        record_and_move (failure permanent_failure provider code (codes "PERMANENT"))
          (dead_letter_change (round.clock 2) code) (refl, named)
          (dead_letter_change-IsAllowed (round.clock 2) code) in
      rw e (closed refl)

  module _ (outcome : AttemptOutcome) (now available_at : ℕ) (code : Text) where
    -- The message that is scheduled again is prepared for the next round.
    rescheduled :
        IsPrepared templates ids m.id
          (after_transition m.id m.version
            (retry_change now available_at code)
            (with_attempt round m outcome s))
          (moved (retry_change now available_at code) m)
    unfolding with_attempt moved retry_change is_open after_transition
    rescheduled = record {
      checked =
          after_transition-checked m.id (retry_change now available_at code)
            (with_attempt round m outcome s) m (retry_change-IsAllowed now available_at code)
            prepared.checked prepared.found prepared.opened;
      found =
          after_transition-found m.id (retry_change now available_at code)
            (with_attempt round m outcome s) m (retry_change-IsAllowed now available_at code)
            prepared.checked prepared.found prepared.opened;
      opened = refl;
      rendered = prepared.rendered;
      fresh = with_attempt-fresh ids round m outcome s prepared.fresh apart;
    }

  pub try_later-Progressed :
      (provider code : Text)
      → is_named provider ≡ true
      → m.attempt_count + 1 < policy.max_attempts
      → Progressed templates policy ids m.id round m (try_later policy round m provider code s)
  unfolding try_later schedule_retry moved retry_change IsRecordable error_check and_then
      policy_value with_attempt
  try_later-Progressed provider code named left =
      let few = (valid_bounds policy valid).0 in
      let delay =
        retry_delay_seconds-bounded policy (m.attempt_count + 1) valid (omega arith)
          (omega arith) in
      let outcome = failure retryable_failure provider code (codes "TRANSIENT") in
      let available_at = round.clock 2 + delay_seconds policy (m.attempt_count + 1) * 1000 in
      let recorded =
        attempt-commits ids round m outcome s prepared.fresh answering.in_order (refl, named) in
      let commits =
        transition-commits m.id (retry_change (round.clock 3) available_at code)
          (with_attempt round m outcome s) m
          (retry_change-IsAllowed (round.clock 3) available_at code) prepared.checked prepared.found
          prepared.opened in
      rw (recorded, delay.0, commits)
        (scheduled (rescheduled outcome (round.clock 3) available_at code) refl (omega arith)
          (omega arith))
