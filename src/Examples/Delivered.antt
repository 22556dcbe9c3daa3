-- ===== src/Examples/Delivered.antt =====
-- A mail that the provider refuses twice, under a policy with two attempts.
use arena_core.Prelude.{ℕ, ◌≡◌, ◌≤◌, refl, true, false, none, some, [], ◌∷◌, codes, text_eq, arith}
use arena_core.Prelude.Outcome.{ok}
use arena_core.Notifications.Types.{
  NotificationType, email, pending, succeeded, retryable_failure, OutboxRecord, OutboxStore,
}
use arena_core.Notifications.Policies.{
  DeliveryPolicy, is_invalid_delivery_policy, delay_seconds, retry_delay_seconds,
  default_email_enabled, normalize_locale,
}
use arena_core.Notifications.Outbox.{
  is_open, message_checks, claim_check, state_check, error_check, attempt_checks, is_named,
  message_by_id, same_attempt, append_delivery_attempt, transition, update_messages,
  updated_message, find_outbox_message, may_move, moved, retry_change, schedule_retry,
}
use arena_core.Notifications.Delivery.{
  Templates, Round, mail_failed, failure, new_attempt, attempt, try_later, policy_value,
  settle_mail, send_mail, deliver_email, deliver_found, deliver_outbox_message, find_preference,
  email_is_enabled, email_input,
}
use arena_core.Notifications.Delays.{retry_delay_seconds-bounded}
use arena_core.Notifications.Results.{IsAnswering, IsPrepared}
use arena_core.Notifications.Rounds.{deliver_rounds, IsSpaced, deliver_rounds-closes}
use arena_core.Notifications.Lifecycle.{Step, phase, deliver_outbox_message-refines}
use arena_core.Prelude.Action.{and_then, refuse_if, require}
use arena_core.Notifications.Blocked.{Refused, is_next_attempt, deliver_outbox_message-Refused}

abbrev twice : DeliveryPolicy
twice = record {
  max_attempts = 2;
  retry_base_seconds = 1;
  retry_max_seconds = 10;
  claim_lease_seconds = 30;
}

abbrev plain : Templates
plain type locale payload = ok (record { subject = codes "s"; body = codes "b"; email = none })

abbrev busy : ℕ → ℕ → Round
busy time id = record {
  clock = λ n. time;
  attempt_id = id;
  send = λ input. some (mail_failed true (codes "smtp") (codes "BUSY"));
}

abbrev mail : OutboxRecord
mail = record {
  id = 7;
  notification_id = 8;
  channel = email;
  status = pending;
  deduplication_key = codes "k";
  available_at = 100;
  attempt_count = 0;
  last_attempt_at = none;
  delivered_at = none;
  failed_at = none;
  dead_lettered_at = none;
  last_error_code = none;
  payload_snapshot = codes "{}";
  claim_token = none;
  claim_expires_at = none;
  version = 1;
  notification = record {
    recipient_user_id = 3;
    notification_type = NotificationType.match_started;
    subject = codes "s";
    body = codes "b";
    locale = codes "en";
  };
}

abbrev waiting : OutboxStore
waiting = record { messages = mail ∷ []; attempts = []; preferences = [] }

busy-IsAnswering : (time id : ℕ) → IsAnswering (busy time id)
unfolding is_named
busy-IsAnswering time id = record {
  in_order = omega arith;
  answers = λ input. (mail_failed true (codes "smtp") (codes "BUSY"), refl, refl);
}

spaced : IsSpaced twice (busy 100 1) (busy 20000 2 ∷ [])
unfolding IsSpaced
spaced = (busy-IsAnswering 100 1, omega arith, busy-IsAnswering 20000 2)

prepared : IsPrepared plain (1 ∷ (2 ∷ [])) 7 waiting mail
unfolding message_checks claim_check state_check is_open message_by_id
prepared = record {
  checked = refl;
  found = refl;
  opened = refl;
  rendered = (record { subject = codes "s"; body = codes "b"; email = none }, refl);
  fresh = refl;
}

deliver_rounds-closes_example :
    (m' : OutboxRecord) × (s' : OutboxStore) × (deliver_rounds plain twice 7
        (busy 100 1)
        (busy 20000 2 ∷ [])
        waiting
      ≡ (ok m', s'))
    × (is_open m'.status ≡ false)
unfolding is_invalid_delivery_policy
deliver_rounds-closes_example =
    deliver_rounds-closes plain twice 7 (busy 100 1) (busy 20000 2 ∷ []) mail waiting refl spaced
      refl prepared (omega arith) (omega arith)

retry_delay_seconds-bounded_example :
    (retry_delay_seconds twice 3 ≡ ok (delay_seconds twice 3))
    × (1 ≤ delay_seconds twice 3)
    × (delay_seconds twice 3 ≤ 10)
    × (delay_seconds twice 3 ≤ delay_seconds twice 4)
unfolding is_invalid_delivery_policy
retry_delay_seconds-bounded_example =
    retry_delay_seconds-bounded twice 3 refl (omega arith) (omega arith)

-- The provider took the mail, and the worker stopped before the message was marked.
abbrev interrupted : OutboxStore
interrupted = record {
  messages = mail ∷ [];
  attempts =
      record {
        id = 4;
        outbox_message_id = 7;
        attempt_number = 1;
        status = succeeded;
        provider = codes "smtp";
        provider_message_id = none;
        error_code = none;
        error_category = none;
        started_at = 100;
        completed_at = 100;
      }
      ∷ [];
  preferences = [];
}

deliver_outbox_message-Refused_example :
    Refused interrupted (deliver_outbox_message plain twice (busy 100 1) 7 interrupted)
unfolding is_next_attempt message_by_id
deliver_outbox_message-Refused_example =
    deliver_outbox_message-Refused plain twice (busy 100 1) mail interrupted refl 7 refl

abbrev rescheduled : OutboxRecord
rescheduled = moved (retry_change 100 1100 (codes "BUSY")) mail

abbrev refused_once : OutboxStore
refused_once = record {
  messages = rescheduled ∷ [];
  attempts =
      new_attempt (busy 100 1) mail
        (failure retryable_failure (codes "smtp") (codes "BUSY") (codes "TRANSIENT"))
      ∷ [];
  preferences = [];
}

first_round :
    deliver_outbox_message plain twice (busy 100 1) 7 waiting ≡ (ok rescheduled, refused_once)
unfolding deliver_outbox_message deliver_found deliver_email send_mail settle_mail try_later attempt
    append_delivery_attempt transition update_messages updated_message find_outbox_message
    message_by_id message_checks attempt_checks claim_check state_check error_check is_named is_open
    same_attempt may_move moved retry_change schedule_retry policy_value retry_delay_seconds
    delay_seconds is_invalid_delivery_policy find_preference email_is_enabled default_email_enabled
    email_input normalize_locale text_eq new_attempt and_then refuse_if require
first_round = refl

deliver_outbox_message-refines_example :
    Step 2 (phase mail) (phase rescheduled)
    × (message_by_id 7 refused_once.messages ≡ some rescheduled)
unfolding message_by_id
deliver_outbox_message-refines_example =
    deliver_outbox_message-refines plain twice (busy 100 1) 7 mail rescheduled waiting refused_once
      refl first_round
