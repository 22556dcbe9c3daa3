-- ===== src/Notifications/Outbox.antt =====
-- The outbox of the repository
-- (packages/notifications/src/infrastructure/prisma-notification-repository.ts), with the CHECK
-- constraints and the unique keys of its tables. The calls run outside a transaction. Foreign keys and
-- the lengths of columns are left out.
use arena_core.Prelude.{
  ℕ, suc, Bool, true, false, not, ◌&&◌, ◌||◌, Option, none, some, List, [], ◌∷◌, Text, ltb, leb,
  ◌==◌, if◌then◌else◌, find, any, all, is_some,
}
use arena_core.Prelude.Action.{Action, give, read, write, refuse_if, require, ◌>>=◌, ◌>>◌}
use arena_core.Notifications.Types.{
  DeliveryFailure, notification_error, database_error, notification_outbox_state_invalid,
  notification_outbox_not_found, notification_deduplication_conflict,
  notification_persistence_failure, OutboxStatus, pending, processing, delivered, retry_scheduled,
  dead_lettered, cancelled, AttemptStatus, succeeded, skipped, OutboxRecord, AttemptRecord,
  OutboxStore,
}

abbrev pub OutboxAction : Type 0 → Type 0
OutboxAction A = Action OutboxStore DeliveryFailure A

-- `['PENDING', 'PROCESSING', 'RETRY_SCHEDULED'].includes(status)`.
unfoldable pub is_open : OutboxStatus → Bool
is_open pending = true
is_open processing = true
is_open retry_scheduled = true
is_open _ = false

-- `notification_outbox_state_check`.
unfoldable pub state_check : OutboxStatus → Option ℕ → Option ℕ → Bool
state_check delivered delivered_at dead_lettered_at =
    is_some delivered_at && not (is_some dead_lettered_at)
state_check dead_lettered delivered_at dead_lettered_at =
    is_some dead_lettered_at && not (is_some delivered_at)
state_check _ delivered_at dead_lettered_at =
    not (is_some delivered_at) && not (is_some dead_lettered_at)

-- `notification_outbox_claim_check`.
unfoldable pub claim_check : OutboxStatus → Option ℕ → Option ℕ → Bool
claim_check processing token expires_at = is_some token && is_some expires_at
claim_check _ token expires_at = not (is_some token) && not (is_some expires_at)

unfoldable pub message_checks : OutboxRecord → Bool
message_checks m =
    (ltb 0 m.version && claim_check m.status m.claim_token m.claim_expires_at)
    && state_check m.status m.delivered_at m.dead_lettered_at

-- `notification_delivery_attempts_error_check`.
unfoldable pub error_check : AttemptStatus → Option Text → Option Text → Bool
error_check succeeded code category = not (is_some code) && not (is_some category)
error_check skipped code category = true
error_check _ code category = is_some code && is_some category

-- `length(trim(provider)) > 0`.
unfoldable pub is_named : Text → Bool
is_named provider = any (λ c. not (c == 32)) provider

unfoldable pub attempt_checks : AttemptRecord → Bool
attempt_checks a =
    (ltb 0 a.attempt_number && leb a.started_at a.completed_at && is_named a.provider)
    && error_check a.status a.error_code a.error_category

-- `updateMany` on the rows that pass the test.
abbrev pub update_where : {A : Type 0} → (A → Bool) → (A → A) → List A → List A
update_where test f [] = []
update_where test f (x ∷ xs) =
    let rest = update_where test f xs in (if test x then f x else x) ∷ rest

-- It returns whether a row was updated.
unfoldable pub update_messages :
    (OutboxRecord → Bool) → (OutboxRecord → OutboxRecord) → OutboxAction Bool
update_messages test f = do
  rows ← read (λ s. s.messages)
  refuse_if (not (all message_checks (update_where test f rows))) database_error
  write (λ s. record s { messages = update_where test f rows })
  give (any test rows)

unfoldable pub message_by_id : ℕ → List OutboxRecord → Option OutboxRecord
message_by_id id rows = find (λ m. m.id == id) rows

unfoldable pub find_outbox_message : ℕ → OutboxAction (Option OutboxRecord)
find_outbox_message id = read (λ s. message_by_id id s.messages)

-- The end of `transition` and of `retryOutboxMessage`: the updated row.
unfoldable pub updated_message : ℕ → Bool → OutboxAction OutboxRecord
updated_message id updated = do
  refuse_if (not updated) (notification_error notification_outbox_state_invalid)
  found ← find_outbox_message id
  require found (notification_error notification_outbox_not_found)

-- The primary key, and the attempt's number within its message.
unfoldable pub same_attempt : AttemptRecord → AttemptRecord → Bool
same_attempt a b =
    a.id == b.id
    || (a.outbox_message_id == b.outbox_message_id && a.attempt_number == b.attempt_number)

unfoldable pub append_delivery_attempt : AttemptRecord → OutboxAction AttemptRecord
append_delivery_attempt a = do
  refuse_if (not (attempt_checks a)) (notification_error notification_persistence_failure)
  rows ← read (λ s. s.attempts)
  refuse_if (any (same_attempt a) rows) (notification_error notification_deduplication_conflict)
  write (λ s. record s { attempts = a ∷ rows })
  give a

-- The columns that a transition writes besides the claim, the count and the version.
pub record Change : Type 0 where
  pub status : OutboxStatus
  pub available_at : ℕ
  pub last_attempt_at : Option ℕ
  pub delivered_at : Option ℕ
  pub failed_at : Option ℕ
  pub dead_lettered_at : Option ℕ
  pub last_error_code : Option Text

unfoldable pub moved : (OutboxRecord → Change) → OutboxRecord → OutboxRecord
moved change m = record m {
  status = (change m).status;
  available_at = (change m).available_at;
  last_attempt_at = (change m).last_attempt_at;
  delivered_at = (change m).delivered_at;
  failed_at = (change m).failed_at;
  dead_lettered_at = (change m).dead_lettered_at;
  last_error_code = (change m).last_error_code;
  claim_token = none;
  claim_expires_at = none;
  attempt_count = suc m.attempt_count;
  version = suc m.version;
}

-- The `where` of `transition`.
unfoldable pub may_move : ℕ → ℕ → OutboxRecord → Bool
may_move id version m = m.id == id && (m.version == version && is_open m.status)

unfoldable pub transition : ℕ → ℕ → (OutboxRecord → Change) → OutboxAction OutboxRecord
transition id version change = do
  updated ← update_messages (may_move id version) (moved change)
  updated_message id updated

unfoldable pub delivered_change : ℕ → OutboxRecord → Change
delivered_change now m = record {
  status = delivered;
  available_at = m.available_at;
  last_attempt_at = some now;
  delivered_at = some now;
  failed_at = m.failed_at;
  dead_lettered_at = m.dead_lettered_at;
  last_error_code = none;
}

unfoldable pub retry_change : ℕ → ℕ → Text → OutboxRecord → Change
retry_change now available_at error_code m = record {
  status = retry_scheduled;
  available_at = available_at;
  last_attempt_at = some now;
  delivered_at = m.delivered_at;
  failed_at = some now;
  dead_lettered_at = m.dead_lettered_at;
  last_error_code = some error_code;
}

unfoldable pub dead_letter_change : ℕ → Text → OutboxRecord → Change
dead_letter_change now error_code m = record {
  status = dead_lettered;
  available_at = m.available_at;
  last_attempt_at = some now;
  delivered_at = m.delivered_at;
  failed_at = some now;
  dead_lettered_at = some now;
  last_error_code = some error_code;
}

unfoldable pub cancel_change : ℕ → Text → OutboxRecord → Change
cancel_change now reason_code m = record {
  status = cancelled;
  available_at = m.available_at;
  last_attempt_at = some now;
  delivered_at = m.delivered_at;
  failed_at = some now;
  dead_lettered_at = m.dead_lettered_at;
  last_error_code = some reason_code;
}

unfoldable pub mark_delivered : ℕ → ℕ → ℕ → OutboxAction OutboxRecord
mark_delivered id version now = transition id version (delivered_change now)

unfoldable pub schedule_retry : ℕ → ℕ → ℕ → ℕ → Text → OutboxAction OutboxRecord
schedule_retry id version now available_at error_code =
    transition id version (retry_change now available_at error_code)

unfoldable pub mark_dead_lettered : ℕ → ℕ → ℕ → Text → OutboxAction OutboxRecord
mark_dead_lettered id version now error_code =
    transition id version (dead_letter_change now error_code)

unfoldable pub cancel_outbox : ℕ → ℕ → ℕ → Text → OutboxAction OutboxRecord
cancel_outbox id version now reason_code = transition id version (cancel_change now reason_code)
