-- ===== src/Notifications/Types.antt =====
-- The data of notifications (packages/notifications/src/domain/notification-types.ts, outbox-types.ts
-- and notification-errors.ts). Identifiers and times are numbers; a payload is its JSON text.
use arena_core.Prelude.{ℕ, Bool, Option, List, Text}

pub data NotificationErrorCode : Type 0 where
  notification_not_found notification_ownership_invalid : NotificationErrorCode
  notification_payload_invalid notification_template_not_found : NotificationErrorCode
  notification_deduplication_conflict notification_preference_invalid : NotificationErrorCode
  notification_required_channel notification_outbox_not_found : NotificationErrorCode
  notification_outbox_state_invalid notification_delivery_unavailable : NotificationErrorCode
  notification_delivery_retry_exhausted notification_persistence_failure : NotificationErrorCode
  notification_service_unavailable : NotificationErrorCode

-- What a call rejects with: an error of the package, of the database, or of the mail's provider.
pub data DeliveryFailure : Type 0 where
  notification_error : NotificationErrorCode → DeliveryFailure
  database_error : DeliveryFailure
  provider_error : DeliveryFailure

pub data NotificationType : Type 0 where
  matchmaking_proposal_created matchmaking_proposal_accepted match_ready_required : NotificationType
  match_started match_result_waiting match_result_confirmed : NotificationType
  match_result_conflict match_dispute_opened match_dispute_response_received : NotificationType
  match_dispute_resolved match_settlement_completed rating_updated : NotificationType
  security_sign_in : NotificationType

pub data NotificationChannel : Type 0 where
  in_app email : NotificationChannel

pub data NotificationLocale : Type 0 where
  fa en : NotificationLocale

pub data OutboxStatus : Type 0 where
  pending processing delivered retry_scheduled failed dead_lettered cancelled : OutboxStatus

pub data AttemptStatus : Type 0 where
  succeeded retryable_failure permanent_failure skipped : AttemptStatus

-- `NotificationOutboxRecord['notification']`.
pub record NotificationSummary : Type 0 where
  pub recipient_user_id : ℕ
  pub notification_type : NotificationType
  pub subject : Text
  pub body : Text
  pub locale : Text

pub record OutboxRecord : Type 0 where
  pub id : ℕ
  pub notification_id : ℕ
  pub channel : NotificationChannel
  pub status : OutboxStatus
  pub deduplication_key : Text
  pub available_at : ℕ
  pub attempt_count : ℕ
  pub last_attempt_at : Option ℕ
  pub delivered_at : Option ℕ
  pub failed_at : Option ℕ
  pub dead_lettered_at : Option ℕ
  pub last_error_code : Option Text
  pub payload_snapshot : Text
  pub claim_token : Option ℕ
  pub claim_expires_at : Option ℕ
  pub version : ℕ
  pub notification : NotificationSummary

pub record AttemptRecord : Type 0 where
  pub id : ℕ
  pub outbox_message_id : ℕ
  pub attempt_number : ℕ
  pub status : AttemptStatus
  pub provider : Text
  pub provider_message_id : Option Text
  pub error_code : Option Text
  pub error_category : Option Text
  pub started_at : ℕ
  pub completed_at : ℕ

pub record PreferenceRecord : Type 0 where
  pub user_id : ℕ
  pub notification_type : NotificationType
  pub in_app_enabled : Bool
  pub email_enabled : Bool

-- The tables, in the order of insertion reversed.
pub record OutboxStore : Type 0 where
  pub messages : List OutboxRecord
  pub attempts : List AttemptRecord
  pub preferences : List PreferenceRecord
