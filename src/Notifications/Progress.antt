-- ===== src/Notifications/Progress.antt =====
-- A delivery that is due closes its message or schedules it again
-- (packages/notifications/src/application/notification-delivery-service.ts).
use mathlib.Core.Path.{subst}
use arena_core.Prelude.{
  ℕ, ◌+◌, ◌≡◌, ◌≤◌, refl, Bool, true, false, ◌&&◌, none, List, ◌∷◌, codes, arith, ltb, ◌==◌, ==_iff,
  find, contains, find-passes, Bool-cases, &&_split, inl, inr,
}
use arena_core.Prelude.Action.{and_then, refuse_if, require}
use arena_core.Notifications.Types.{
  in_app, email, NotificationChannel, PreferenceRecord, OutboxRecord, OutboxStore,
}
use arena_core.Notifications.Policies.{DeliveryPolicy, is_invalid_delivery_policy}
use arena_core.Notifications.Outbox.{OutboxAction, is_named, message_by_id, find_outbox_message}
use arena_core.Notifications.Delivery.{
  EmailResult, sent, mail_skipped, mail_failed, Templates, Round, policy_value, settle_mail,
  succeed, skip, same_type, find_preference, email_is_enabled, email_input, send_mail,
  deliver_email, deliver_found, deliver_outbox_message,
}
use arena_core.Notifications.Results.{
  provider_of, IsAnswering, IsPrepared, Progressed, succeed-Progressed, skip-Progressed,
  give_up-Progressed, try_later-Progressed,
}

module _ (templates : Templates) (policy : DeliveryPolicy)
    (valid : is_invalid_delivery_policy policy ≡ false) where
  module _ (ids : List ℕ) (round : Round) (m : OutboxRecord) (s : OutboxStore)
      (answering : IsAnswering round) (apart : contains ids round.attempt_id ≡ false) where
    module _ (id : ℕ) (prepared : IsPrepared templates (round.attempt_id ∷ ids) m.id s m) where
      settle_mail-Progressed :
          (result : EmailResult)
          → is_named (provider_of result) ≡ true
          → Progressed templates policy ids m.id round m (settle_mail policy round m result s)
      unfolding settle_mail
      settle_mail-Progressed (sent provider message_id) named =
          succeed-Progressed templates policy ids id round m s valid answering apart prepared
            provider message_id named
      settle_mail-Progressed (mail_skipped provider code) named =
          skip-Progressed templates policy ids id round m s valid answering apart prepared provider
            code named
      settle_mail-Progressed (mail_failed retryable provider code) named =
          elim (Bool-cases (retryable && ltb (m.attempt_count + 1) policy.max_attempts)) [
            | inl later ↦
                let left =
                  (&&_split retryable (ltb (m.attempt_count + 1) policy.max_attempts) later).1 in
                rw (later, settle_mail)
                  (try_later-Progressed templates policy ids id round m s valid answering apart
                    prepared provider code named (ground arith))
            | inr last ↦
                rw (last, settle_mail)
                  (give_up-Progressed templates policy ids id round m s valid answering apart
                    prepared provider code named)
          ]

      send_mail-Progressed :
          Progressed templates policy ids m.id round m (send_mail templates policy round m s)
      unfolding send_mail and_then policy_value require
      send_mail-Progressed =
          let template = prepared.rendered in
          let answer = answering.answers (email_input m template.0) in
          rw (template.1, answer.1) (settle_mail-Progressed answer.0 answer.2)

      by_preference :
          (enabled : Bool)
          → Progressed templates policy ids m.id round m (
              (elim enabled as (λ _. OutboxAction OutboxRecord) [
                | true ↦ send_mail templates policy round m
                | false ↦ skip round m (codes "EMAIL_PACKAGE") (codes "EMAIL_PREFERENCE_DISABLED")
              ])
                s)
      unfolding is_named
      by_preference true = send_mail-Progressed
      by_preference false =
          skip-Progressed templates policy ids id round m s valid answering apart prepared
            (codes "EMAIL_PACKAGE") (codes "EMAIL_PREFERENCE_DISABLED") refl

      deliver_email-Progressed :
          Progressed templates policy ids m.id round m (deliver_email templates policy round m s)
      unfolding deliver_email and_then find_preference
      deliver_email-Progressed = by_preference (
          email_is_enabled
            (find
              (λ (p : PreferenceRecord).
                p.user_id == m.notification.recipient_user_id
                && same_type p.notification_type m.notification.notification_type)
              s.preferences)
            m.notification.notification_type)

      by_channel :
          (channel : NotificationChannel)
          → Progressed templates policy ids m.id round m (
              (elim channel as (λ _. OutboxAction OutboxRecord) [
                | in_app ↦ succeed round m (codes "IN_APP_LOCAL") none
                | email ↦ deliver_email templates policy round m
              ])
                s)
      unfolding is_named
      by_channel in_app =
          succeed-Progressed templates policy ids id round m s valid answering apart prepared
            (codes "IN_APP_LOCAL") none refl
      by_channel email = deliver_email-Progressed

      deliver_found-Progressed :
          Progressed templates policy ids m.id round m (deliver_found templates policy round m s)
      unfolding deliver_found
      deliver_found-Progressed = by_channel m.channel

      deliver_here-Progressed :
          m.available_at ≤ round.clock 0
          → Progressed templates policy ids m.id round m
              (deliver_outbox_message templates policy round m.id s)
      unfolding deliver_outbox_message find_outbox_message and_then require refuse_if
      deliver_here-Progressed due =
          let on_time : ltb (round.clock 0) m.available_at ≡ false = ground arith in
          rw (prepared.found, prepared.opened, on_time) deliver_found-Progressed

    -- A delivery that is due closes the message or schedules it again.
    pub deliver_outbox_message-Progressed :
        (id : ℕ)
        → IsPrepared templates (round.attempt_id ∷ ids) id s m
        → m.available_at ≤ round.clock 0
        → Progressed templates policy ids id round m
            (deliver_outbox_message templates policy round id s)
    unfolding message_by_id
    deliver_outbox_message-Progressed id prepared due =
        let same : m.id ≡ id =
          (==_iff m.id id).0
            (find-passes (λ (x : OutboxRecord). x.id == id) s.messages prepared.found) in
        subst
          (λ i.
            IsPrepared templates (round.attempt_id ∷ ids) i s m
            → Progressed templates policy ids i round m
                (deliver_outbox_message templates policy round i s))
          same (λ p. deliver_here-Progressed id p due) prepared
