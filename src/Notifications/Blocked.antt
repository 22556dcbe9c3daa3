-- ===== src/Notifications/Blocked.antt =====
-- A delivery whose attempt is recorded already
-- (packages/notifications/src/application/notification-delivery-service.ts).
use arena_core.Prelude.{
  ℕ, ◌+◌, ◌≡◌, refl, Bool, true, false, not, ◌&&◌, Option, none, some, List, [], ◌∷◌, Text, codes,
  arith, ltb, ◌==◌, find, any, Bool-cases, inl, inr,
}
use arena_core.Prelude.Outcome.{Outcome, ok, throw}
use arena_core.Prelude.Action.{and_then, refuse_if, require}
use arena_core.Notifications.Types.{
  DeliveryFailure, NotificationErrorCode, notification_error, notification_persistence_failure,
  notification_deduplication_conflict, notification_outbox_state_invalid, provider_error, skipped,
  permanent_failure, retryable_failure, NotificationChannel, in_app, email, PreferenceRecord,
  OutboxRecord, AttemptRecord, OutboxStore,
}
use arena_core.Notifications.Policies.{DeliveryPolicy, normalize_locale}
use arena_core.Notifications.Outbox.{
  OutboxAction, is_open, attempt_checks, same_attempt, append_delivery_attempt, message_by_id,
  find_outbox_message,
}
use arena_core.Notifications.Delivery.{
  EmailResult, sent, mail_skipped, mail_failed, Templates, Round, AttemptOutcome, success, failure,
  new_attempt, attempt, succeed, skip, give_up, policy_value, try_later, settle_mail, same_type,
  find_preference, email_is_enabled, email_input, send_mail, deliver_email, deliver_found,
  deliver_outbox_message,
}

-- The call throws, and leaves the store as it was.
pub data Refused {A : Type 0} (s : OutboxStore)
    : Outcome DeliveryFailure A × OutboxStore → Type 0 where
  refused : (e : DeliveryFailure) → Refused s (throw e, s)

module _ {A : Type 0} {s : OutboxStore} where
  Refused-and_then :
      {B : Type 0} {r : Outcome DeliveryFailure B × OutboxStore} (k : B → OutboxAction A)
      → Refused s r
      → Refused s (and_then r k)
  unfolding and_then
  Refused-and_then k (refused e) = refused e

  Refused-refuse_if :
      (b : Bool) (e : DeliveryFailure) (k : Unit {0} → OutboxAction A)
      → Refused s (k tt s)
      → Refused s (and_then (refuse_if b e s) k)
  unfolding and_then refuse_if
  Refused-refuse_if true e k h = refused e
  Refused-refuse_if false e k h = h

  Refused-require :
      {B : Type 0} (o : Option B) (e : DeliveryFailure) (k : B → OutboxAction A)
      → ((b : B) → o ≡ some b → Refused s (k b s))
      → Refused s (and_then (require o e s) k)
  unfolding and_then require
  Refused-require none e k h = refused e
  Refused-require (some b) e k h = h b refl

  Refused-policy_value :
      {B : Type 0} (o : Outcome NotificationErrorCode B) (k : B → OutboxAction A)
      → ((b : B) → Refused s (k b s))
      → Refused s (and_then (policy_value o s) k)
  unfolding and_then policy_value
  Refused-policy_value (throw e) k h = refused (notification_error e)
  Refused-policy_value (ok b) k h = h b

-- An attempt of the message with the number that the next delivery gives its own.
unfoldable pub is_next_attempt : OutboxRecord → AttemptRecord → Bool
is_next_attempt m a = m.id == a.outbox_message_id && m.attempt_count + 1 == a.attempt_number

module _ (round : Round) (m : OutboxRecord) (outcome : AttemptOutcome) where
  clashes :
      (attempts : List AttemptRecord)
      → any (is_next_attempt m) attempts ≡ true
      → any (same_attempt (new_attempt round m outcome)) attempts ≡ true
  unfolding is_next_attempt same_attempt new_attempt
  clashes [] h = h
  clashes (a ∷ attempts) h = elim (Bool-cases (is_next_attempt m a)) [
    | inl here ↦
        let same : same_attempt (new_attempt round m outcome) a ≡ true = ground arith in
        rw same refl
    | inr later ↦
        let rest = clashes attempts (rw later at h) in
        elim (Bool-cases (same_attempt (new_attempt round m outcome) a)) [
          | inl same ↦ rw same refl
          | inr other ↦ rw (other, rest) refl
        ]
  ]

module _ (templates : Templates) (policy : DeliveryPolicy) (round : Round) (m : OutboxRecord)
    (s : OutboxStore) (recorded : any (is_next_attempt m) s.attempts ≡ true) where
  attempt-Refused : (outcome : AttemptOutcome) → Refused s (attempt round m outcome s)
  unfolding attempt append_delivery_attempt and_then refuse_if
  attempt-Refused outcome =
      Refused-refuse_if (not (attempt_checks (new_attempt round m outcome)))
        (notification_error notification_persistence_failure) _
        (rw (clashes round m outcome s.attempts recorded)
          (refused (notification_error notification_deduplication_conflict)))

  by_retry :
      (provider code : Text) (again : Bool)
      → Refused s (
          (elim again as (λ _. OutboxAction OutboxRecord) [
            | true ↦ try_later policy round m provider code
            | false ↦ give_up round m provider code
          ])
            s)
  unfolding try_later give_up
  by_retry provider code true =
      Refused-and_then _
        (attempt-Refused (failure retryable_failure provider code (codes "TRANSIENT")))
  by_retry provider code false =
      Refused-and_then _
        (attempt-Refused (failure permanent_failure provider code (codes "PERMANENT")))

  settle_mail-Refused : (result : EmailResult) → Refused s (settle_mail policy round m result s)
  unfolding settle_mail succeed skip give_up try_later
  settle_mail-Refused (sent provider message_id) =
      Refused-and_then _ (attempt-Refused (success provider message_id))
  settle_mail-Refused (mail_skipped provider code) =
      Refused-and_then _ (attempt-Refused (failure skipped provider code (codes "POLICY")))
  settle_mail-Refused (mail_failed retryable provider code) =
      by_retry provider code (retryable && ltb (m.attempt_count + 1) policy.max_attempts)

  send_mail-Refused : Refused s (send_mail templates policy round m s)
  unfolding send_mail
  send_mail-Refused =
      Refused-policy_value
        (templates m.notification.notification_type (normalize_locale m.notification.locale)
          m.payload_snapshot)
        _
        λ template.
          Refused-require (round.send (email_input m template)) provider_error _
            λ result answered. settle_mail-Refused result

  by_preference :
      (enabled : Bool)
      → Refused s (
          (elim enabled as (λ _. OutboxAction OutboxRecord) [
            | true ↦ send_mail templates policy round m
            | false ↦ skip round m (codes "EMAIL_PACKAGE") (codes "EMAIL_PREFERENCE_DISABLED")
          ])
            s)
  unfolding skip
  by_preference true = send_mail-Refused
  by_preference false = Refused-and_then _ (
      attempt-Refused (
        failure skipped (codes "EMAIL_PACKAGE") (codes "EMAIL_PREFERENCE_DISABLED")
          (codes "POLICY")))

  by_channel :
      (channel : NotificationChannel)
      → Refused s (
          (elim channel as (λ _. OutboxAction OutboxRecord) [
            | in_app ↦ succeed round m (codes "IN_APP_LOCAL") none
            | email ↦ deliver_email templates policy round m
          ])
            s)
  unfolding succeed deliver_email and_then find_preference
  by_channel in_app = Refused-and_then _ (attempt-Refused (success (codes "IN_APP_LOCAL") none))
  by_channel email = by_preference (
      email_is_enabled
        (find
          (λ (p : PreferenceRecord).
            p.user_id == m.notification.recipient_user_id
            && same_type p.notification_type m.notification.notification_type)
          s.preferences)
        m.notification.notification_type)

  -- When an attempt is recorded with the number that the message's next one is to have, every delivery
  -- of the message throws and leaves the store as it was.
  pub deliver_outbox_message-Refused :
      (id : ℕ)
      → message_by_id id s.messages ≡ some m
      → Refused s (deliver_outbox_message templates policy round id s)
  unfolding deliver_outbox_message find_outbox_message deliver_found and_then require
  deliver_outbox_message-Refused id found = rw found (
      Refused-refuse_if (not (is_open m.status))
        (notification_error notification_outbox_state_invalid) _
        (Refused-refuse_if (ltb (round.clock 0) m.available_at)
          (notification_error notification_outbox_state_invalid) _ (by_channel m.channel)))
