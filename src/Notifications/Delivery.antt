-- ===== src/Notifications/Delivery.antt =====
-- The delivery of a message (packages/notifications/src/application/notification-delivery-service.ts).
-- The readings of the clock, the generated identifier and the mail's provider are a `Round`; the
-- templates are a parameter.
use arena_core.Prelude.{
  ℕ, ◌+◌, ◌*◌, Bool, true, false, not, ◌&&◌, Option, none, some, [], ◌∷◌, Text, codes, ltb, ◌==◌,
  find,
}
use arena_core.Prelude.Outcome.{Outcome, ok, throw}
use arena_core.Prelude.Action.{read, refuse_if, require, ◌>>=◌, ◌>>◌}
use arena_core.Notifications.Types.{
  notification_error, provider_error, NotificationErrorCode, notification_outbox_state_invalid,
  notification_outbox_not_found, NotificationType, NotificationLocale, in_app, email, AttemptStatus,
  succeeded, retryable_failure, permanent_failure, skipped, OutboxRecord, AttemptRecord,
  PreferenceRecord,
}
use arena_core.Notifications.Policies.{
  DeliveryPolicy, retry_delay_seconds, normalize_locale, default_email_enabled,
}
use arena_core.Notifications.Outbox.{
  OutboxAction, is_open, find_outbox_message, append_delivery_attempt, mark_delivered,
  schedule_retry, mark_dead_lettered, cancel_outbox,
}

-- `NotificationEmailDeliveryResult`: the provider, and the message's identifier or the error's code. A
-- failure says whether it is `RETRYABLE_FAILURE`.
pub data EmailResult : Type 0 where
  sent : Text → Option Text → EmailResult
  mail_skipped : Text → Text → EmailResult
  mail_failed : Bool → Text → Text → EmailResult

pub record EmailBody : Type 0 where
  pub subject : Text
  pub text : Text
  pub html : Text

pub record RenderedTemplate : Type 0 where
  pub subject : Text
  pub body : Text
  pub email : Option EmailBody

-- The input of `send`. An empty `html` is left out of it.
pub record EmailInput : Type 0 where
  pub recipient_user_id : ℕ
  pub subject : Text
  pub text : Text
  pub html : Option Text
  pub deduplication_key : Text

abbrev pub Templates : Type 0
Templates =
    NotificationType → NotificationLocale → Text → Outcome NotificationErrorCode RenderedTemplate

-- The n-th reading of the clock, the attempt's generated identifier, and what the provider answers:
-- nothing if the call rejects.
pub record Round : Type 0 where
  pub clock : ℕ → ℕ
  pub attempt_id : ℕ
  pub send : EmailInput → Option EmailResult

-- What an attempt says of its outcome.
pub record AttemptOutcome : Type 0 where
  pub status : AttemptStatus
  pub provider : Text
  pub provider_message_id : Option Text
  pub error_code : Option Text
  pub error_category : Option Text

-- `attempt`, for the outcome and the times 0 and 1.
unfoldable pub new_attempt : Round → OutboxRecord → AttemptOutcome → AttemptRecord
new_attempt round message outcome = record {
  id = round.attempt_id;
  outbox_message_id = message.id;
  attempt_number = message.attempt_count + 1;
  status = outcome.status;
  provider = outcome.provider;
  provider_message_id = outcome.provider_message_id;
  error_code = outcome.error_code;
  error_category = outcome.error_category;
  started_at = round.clock 0;
  completed_at = round.clock 1;
}

unfoldable pub attempt : Round → OutboxRecord → AttemptOutcome → OutboxAction AttemptRecord
attempt round message outcome = append_delivery_attempt (new_attempt round message outcome)

abbrev pub success : Text → Option Text → AttemptOutcome
success provider message_id = record {
  status = succeeded;
  provider = provider;
  provider_message_id = message_id;
  error_code = none;
  error_category = none;
}

abbrev pub failure : AttemptStatus → Text → Text → Text → AttemptOutcome
failure status provider code category = record {
  status = status;
  provider = provider;
  provider_message_id = none;
  error_code = some code;
  error_category = some category;
}

-- An attempt that succeeded, and one that a policy skipped.
unfoldable pub succeed : Round → OutboxRecord → Text → Option Text → OutboxAction OutboxRecord
succeed round message provider message_id = do
  attempt round message (success provider message_id)
  mark_delivered message.id message.version (round.clock 2)

unfoldable pub skip : Round → OutboxRecord → Text → Text → OutboxAction OutboxRecord
skip round message provider code = do
  attempt round message (failure skipped provider code (codes "POLICY"))
  cancel_outbox message.id message.version (round.clock 2) code

unfoldable pub give_up : Round → OutboxRecord → Text → Text → OutboxAction OutboxRecord
give_up round message provider code = do
  attempt round message (failure permanent_failure provider code (codes "PERMANENT"))
  mark_dead_lettered message.id message.version (round.clock 2) code

unfoldable pub policy_value : {A : Type 0} → Outcome NotificationErrorCode A → OutboxAction A
policy_value (ok a) s = (ok a, s)
policy_value (throw e) s = (throw (notification_error e), s)

unfoldable pub try_later :
    DeliveryPolicy → Round → OutboxRecord → Text → Text → OutboxAction OutboxRecord
try_later policy round message provider code = do
  attempt round message (failure retryable_failure provider code (codes "TRANSIENT"))
  delay ← policy_value (retry_delay_seconds policy (message.attempt_count + 1))
  schedule_retry message.id message.version (round.clock 3) (round.clock 2 + delay * 1000) code

-- What `deliverOutboxMessage` makes of the provider's answer.
unfoldable pub settle_mail :
    DeliveryPolicy → Round → OutboxRecord → EmailResult → OutboxAction OutboxRecord
settle_mail policy round message (sent provider message_id) =
    succeed round message provider message_id
settle_mail policy round message (mail_skipped provider code) = skip round message provider code
settle_mail policy round message (mail_failed retryable provider code) =
    elim (retryable && ltb (message.attempt_count + 1) policy.max_attempts) [
      | true ↦ try_later policy round message provider code
      | false ↦ give_up round message provider code
    ]

unfoldable pub same_type : NotificationType → NotificationType → Bool
same_type a b = type_number a == type_number b
  where
    type_number : NotificationType → ℕ
    type_number NotificationType.matchmaking_proposal_created = 0
    type_number NotificationType.matchmaking_proposal_accepted = 1
    type_number NotificationType.match_ready_required = 2
    type_number NotificationType.match_started = 3
    type_number NotificationType.match_result_waiting = 4
    type_number NotificationType.match_result_confirmed = 5
    type_number NotificationType.match_result_conflict = 6
    type_number NotificationType.match_dispute_opened = 7
    type_number NotificationType.match_dispute_response_received = 8
    type_number NotificationType.match_dispute_resolved = 9
    type_number NotificationType.match_settlement_completed = 10
    type_number NotificationType.rating_updated = 11
    type_number NotificationType.security_sign_in = 12

unfoldable pub find_preference : ℕ → NotificationType → OutboxAction (Option PreferenceRecord)
find_preference user_id type =
    read (λ s. find (λ p. p.user_id == user_id && same_type p.notification_type type) s.preferences)

-- `(override ?? defaultPreference(type)).emailEnabled`.
unfoldable pub email_is_enabled : Option PreferenceRecord → NotificationType → Bool
email_is_enabled none type = default_email_enabled type
email_is_enabled (some p) type = p.email_enabled

abbrev some_html : Text → Option Text
some_html [] = none
some_html (c ∷ html) = some (c ∷ html)

unfoldable pub email_input : OutboxRecord → RenderedTemplate → EmailInput
email_input message rendered = elim rendered.email [
  | none ↦ record {
    recipient_user_id = message.notification.recipient_user_id;
    subject = rendered.subject;
    text = rendered.body;
    html = none;
    deduplication_key = message.deduplication_key;
  }
  | some mail ↦ record {
    recipient_user_id = message.notification.recipient_user_id;
    subject = mail.subject;
    text = mail.text;
    html = some_html mail.html;
    deduplication_key = message.deduplication_key;
  }
]

unfoldable pub send_mail :
    Templates → DeliveryPolicy → Round → OutboxRecord → OutboxAction OutboxRecord
send_mail templates policy round message = do
  rendered ← policy_value (
      templates message.notification.notification_type
        (normalize_locale message.notification.locale) message.payload_snapshot)
  result ← require (round.send (email_input message rendered)) provider_error
  settle_mail policy round message result

-- The message as its channel and the recipient's preference have it delivered.
unfoldable pub deliver_email :
    Templates → DeliveryPolicy → Round → OutboxRecord → OutboxAction OutboxRecord
deliver_email templates policy round message = do
  override ←
      find_preference message.notification.recipient_user_id message.notification.notification_type
  elim (email_is_enabled override message.notification.notification_type) [
    | true ↦ send_mail templates policy round message
    | false ↦ skip round message (codes "EMAIL_PACKAGE") (codes "EMAIL_PREFERENCE_DISABLED")
  ]

unfoldable pub deliver_found :
    Templates → DeliveryPolicy → Round → OutboxRecord → OutboxAction OutboxRecord
deliver_found templates policy round message = elim message.channel [
  | in_app ↦ succeed round message (codes "IN_APP_LOCAL") none
  | email ↦ deliver_email templates policy round message
]

unfoldable pub deliver_outbox_message :
    Templates → DeliveryPolicy → Round → ℕ → OutboxAction OutboxRecord
deliver_outbox_message templates policy round id = do
  found ← find_outbox_message id
  message ← require found (notification_error notification_outbox_not_found)
  refuse_if (not (is_open message.status)) (notification_error notification_outbox_state_invalid)
  refuse_if (ltb (round.clock 0) message.available_at)
      (notification_error notification_outbox_state_invalid)
  deliver_found templates policy round message
