-- ===== src/Notifications/Lifecycle.antt =====
-- The life of a message, as it looks from outside, and its refinement by the delivery
-- (packages/notifications/src/application/notification-delivery-service.ts).
use mathlib.Core.Path.{subst}
use arena_core.Prelude.{
  ℕ, suc, ◌+◌, ◌*◌, ◌<◌, ◌≡◌, refl, Bool, true, false, not, ◌&&◌, Option, none, some, Text, codes,
  arith, ltb, ◌==◌, ==_iff, find, find-passes, if◌then◌else◌, Bool-cases, &&_split, inl, inr,
}
use arena_core.Prelude.Outcome.{ok}
use arena_core.Prelude.Action.{and_then, require}
use arena_core.Notifications.Types.{
  notification_error, notification_outbox_state_invalid, provider_error, skipped, permanent_failure,
  retryable_failure, NotificationChannel, in_app, email, PreferenceRecord, OutboxRecord,
  OutboxStore,
}
use arena_core.Notifications.Policies.{DeliveryPolicy, retry_delay_seconds, normalize_locale}
use arena_core.Notifications.Outbox.{
  OutboxAction, is_open, message_by_id, find_outbox_message, Change, moved, transition,
  delivered_change, retry_change, dead_letter_change, cancel_change, mark_delivered, schedule_retry,
  mark_dead_lettered, cancel_outbox,
}
use arena_core.Notifications.Delivery.{
  EmailResult, sent, mail_skipped, mail_failed, Templates, Round, success, failure, succeed, skip,
  give_up, try_later, settle_mail, same_type, find_preference, email_is_enabled, email_input,
  send_mail, deliver_email, deliver_found, deliver_outbox_message,
}
use arena_core.Notifications.Returns.{
  Returns, Returns-and_then, Returns-require, Returns-policy_value, Returns-refuse_if, Returns-map,
  of_return, attempt-Returns, transition-Returns,
}

-- A message waits with a number of attempts behind it, or is closed.
pub data Phase : Type 0 where
  waiting : ℕ → Phase
  closed : Phase

-- One more attempt is made: another may follow while the policy's number is not reached.
pub data Step (max_attempts : ℕ) : Phase → Phase → Type 0 where
  retries : {n : ℕ} → suc n < max_attempts → Step max_attempts (waiting n) (waiting (suc n))
  closes : {n : ℕ} → Step max_attempts (waiting n) closed

-- The phase of a message.
unfoldable pub phase : OutboxRecord → Phase
phase m = if is_open m.status then waiting m.attempt_count else closed

-- The stored message after a step of its life.
Stepped : ℕ → OutboxRecord → OutboxRecord → OutboxStore → Type 0
Stepped max_attempts m m' t =
    Step max_attempts (phase m) (phase m') × (message_by_id m.id t.messages ≡ some m')

module _ (templates : Templates) (policy : DeliveryPolicy) (round : Round) (m : OutboxRecord)
    (s : OutboxStore) (found : message_by_id m.id s.messages ≡ some m)
    (opened : is_open m.status ≡ true) where
  moves_on :
      (t : OutboxStore) (change : OutboxRecord → Change)
      → t.messages ≡ s.messages
      → Step policy.max_attempts (phase m) (phase (moved change m))
      → Returns (Stepped policy.max_attempts m) (transition m.id m.version change t)
  unfolding Stepped
  moves_on t change same step =
      let there : message_by_id m.id t.messages ≡ some m = rw same found in
      Returns-map (transition-Returns m opened t there change)
        λ m' t' (moves, stored). (rw moves step, stored)

  closing :
      (change : OutboxRecord → Change)
      → is_open (change m).status ≡ false
      → Step policy.max_attempts (phase m) (phase (moved change m))
  unfolding phase moved
  closing change h = rw (opened, h) closes

  succeed-Returns :
      (provider : Text) (message_id : Option Text)
      → Returns (Stepped policy.max_attempts m) (succeed round m provider message_id s)
  unfolding succeed mark_delivered delivered_change is_open
  succeed-Returns provider message_id =
      Returns-and_then _ (attempt-Returns round m (success provider message_id) s) λ a t same.
        moves_on t (delivered_change (round.clock 2)) same
          (closing (delivered_change (round.clock 2)) refl)

  skip-Returns :
      (provider code : Text)
      → Returns (Stepped policy.max_attempts m) (skip round m provider code s)
  unfolding skip cancel_outbox cancel_change is_open
  skip-Returns provider code =
      Returns-and_then _
        (attempt-Returns round m (failure skipped provider code (codes "POLICY")) s)
        λ a t same.
          moves_on t (cancel_change (round.clock 2) code) same
            (closing (cancel_change (round.clock 2) code) refl)

  give_up-Returns :
      (provider code : Text)
      → Returns (Stepped policy.max_attempts m) (give_up round m provider code s)
  unfolding give_up mark_dead_lettered dead_letter_change is_open
  give_up-Returns provider code =
      Returns-and_then _
        (attempt-Returns round m (failure permanent_failure provider code (codes "PERMANENT")) s)
        λ a t same.
          moves_on t (dead_letter_change (round.clock 2) code) same
            (closing (dead_letter_change (round.clock 2) code) refl)

  retrying :
      (now available_at : ℕ) (code : Text)
      → m.attempt_count + 1 < policy.max_attempts
      → Step policy.max_attempts (phase m) (phase (moved (retry_change now available_at code) m))
  unfolding phase moved retry_change is_open
  retrying now available_at code left = rw opened (retries (omega arith))

  try_later-Returns :
      (provider code : Text)
      → m.attempt_count + 1 < policy.max_attempts
      → Returns (Stepped policy.max_attempts m) (try_later policy round m provider code s)
  unfolding try_later schedule_retry
  try_later-Returns provider code left =
      Returns-and_then _
        (attempt-Returns round m (failure retryable_failure provider code (codes "TRANSIENT")) s)
        λ a t same.
          Returns-policy_value (retry_delay_seconds policy (m.attempt_count + 1)) t _ λ delay.
            moves_on t (retry_change (round.clock 3) (round.clock 2 + delay * 1000) code) same
              (retrying (round.clock 3) (round.clock 2 + delay * 1000) code left)

  settle_mail-Returns :
      (result : EmailResult)
      → Returns (Stepped policy.max_attempts m) (settle_mail policy round m result s)
  unfolding settle_mail
  settle_mail-Returns (sent provider message_id) = succeed-Returns provider message_id
  settle_mail-Returns (mail_skipped provider code) = skip-Returns provider code
  settle_mail-Returns (mail_failed retryable provider code) =
      elim (Bool-cases (retryable && ltb (m.attempt_count + 1) policy.max_attempts)) [
        | inl later ↦
            let left =
              (&&_split retryable (ltb (m.attempt_count + 1) policy.max_attempts) later).1 in
            rw (later, settle_mail) (try_later-Returns provider code (ground arith))
        | inr last ↦ rw (last, settle_mail) (give_up-Returns provider code)
      ]

  send_mail-Returns : Returns (Stepped policy.max_attempts m) (send_mail templates policy round m s)
  unfolding send_mail
  send_mail-Returns =
      Returns-policy_value
        (templates m.notification.notification_type (normalize_locale m.notification.locale)
          m.payload_snapshot)
        s _
        λ template.
          Returns-require (round.send (email_input m template)) provider_error s _
            settle_mail-Returns

  by_preference :
      (enabled : Bool)
      → Returns (Stepped policy.max_attempts m) (
          (elim enabled as (λ _. OutboxAction OutboxRecord) [
            | true ↦ send_mail templates policy round m
            | false ↦ skip round m (codes "EMAIL_PACKAGE") (codes "EMAIL_PREFERENCE_DISABLED")
          ])
            s)
  by_preference true = send_mail-Returns
  by_preference false = skip-Returns (codes "EMAIL_PACKAGE") (codes "EMAIL_PREFERENCE_DISABLED")

  by_channel :
      (channel : NotificationChannel)
      → Returns (Stepped policy.max_attempts m) (
          (elim channel as (λ _. OutboxAction OutboxRecord) [
            | in_app ↦ succeed round m (codes "IN_APP_LOCAL") none
            | email ↦ deliver_email templates policy round m
          ])
            s)
  unfolding deliver_email and_then find_preference
  by_channel in_app = succeed-Returns (codes "IN_APP_LOCAL") none
  by_channel email = by_preference (
      email_is_enabled
        (find
          (λ (p : PreferenceRecord).
            p.user_id == m.notification.recipient_user_id
            && same_type p.notification_type m.notification.notification_type)
          s.preferences)
        m.notification.notification_type)

deliver_here-Returns :
    (templates : Templates) (policy : DeliveryPolicy) (round : Round) (m : OutboxRecord)
    (s : OutboxStore)
    → message_by_id m.id s.messages ≡ some m
    → Returns (Stepped policy.max_attempts m) (deliver_outbox_message templates policy round m.id s)
unfolding deliver_outbox_message find_outbox_message deliver_found and_then require
deliver_here-Returns templates policy round m s found = rw found (
    Returns-refuse_if (not (is_open m.status))
      (notification_error notification_outbox_state_invalid) s _
      λ opened.
        Returns-refuse_if (ltb (round.clock 0) m.available_at)
          (notification_error notification_outbox_state_invalid) s _
          λ due. by_channel templates policy round m s found (ground arith) m.channel)

-- Whatever the templates, the provider and the clock answer: a delivery that returns has moved the
-- stored message by one step of the life of a message under the policy's number of attempts, and
-- returns the message as it is stored.
pub deliver_outbox_message-refines :
    (templates : Templates) (policy : DeliveryPolicy) (round : Round) (id : ℕ) (m m' : OutboxRecord)
    (s s' : OutboxStore)
    → message_by_id id s.messages ≡ some m
    → deliver_outbox_message templates policy round id s ≡ (ok m', s')
    → Step policy.max_attempts (phase m) (phase m') × (message_by_id id s'.messages ≡ some m')
unfolding message_by_id Stepped
deliver_outbox_message-refines templates policy round id m m' s s' found delivers =
    let same : m.id ≡ id =
      (==_iff m.id id).0 (find-passes (λ (x : OutboxRecord). x.id == id) s.messages found) in
    of_return
      (subst
        (λ i.
          message_by_id i s.messages ≡ some m
          → Returns
              (λ (a : OutboxRecord) t.
                Step policy.max_attempts (phase m) (phase a)
                × (message_by_id i t.messages ≡ some a))
              (deliver_outbox_message templates policy round i s))
        same (deliver_here-Returns templates policy round m s) found)
      delivers
