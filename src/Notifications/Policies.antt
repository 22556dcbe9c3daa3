-- ===== src/Notifications/Policies.antt =====
-- The policies on deliveries (packages/notifications/src/domain/delivery-policies.ts and
-- notification-policies.ts). The numbers of a policy are natural numbers. A power of two that is
-- greater than every number of the language is compared as it is: the smaller of the two is the maximum.
use arena_core.Prelude.{
  ℕ, ◌-◌, ◌*◌, ◌^◌, Bool, true, false, ◌||◌, ltb, leb, if◌then◌else◌, Text, codes, text_eq,
}
use arena_core.Prelude.Outcome.{Outcome, ok, throw}
use arena_core.Notifications.Types.{
  NotificationErrorCode, notification_outbox_state_invalid, NotificationType, rating_updated,
  NotificationLocale, en, fa,
}

pub record DeliveryPolicy : Type 0 where
  pub max_attempts : ℕ
  pub retry_base_seconds : ℕ
  pub retry_max_seconds : ℕ
  pub claim_lease_seconds : ℕ

-- `!Number.isSafeInteger(value)`, for a natural number.
abbrev is_unsafe : ℕ → Bool
is_unsafe value = ltb 9007199254740991 value

-- The test of `validateDeliveryPolicy`.
unfoldable pub is_invalid_delivery_policy : DeliveryPolicy → Bool
is_invalid_delivery_policy policy =
    is_unsafe policy.max_attempts
    || ltb policy.max_attempts 1
    || ltb 20 policy.max_attempts
    || is_unsafe policy.retry_base_seconds
    || ltb policy.retry_base_seconds 1
    || ltb 86400 policy.retry_base_seconds
    || is_unsafe policy.retry_max_seconds
    || ltb policy.retry_max_seconds policy.retry_base_seconds
    || ltb 604800 policy.retry_max_seconds
    || is_unsafe policy.claim_lease_seconds
    || ltb policy.claim_lease_seconds 5
    || ltb 3600 policy.claim_lease_seconds

unfoldable pub validate_delivery_policy :
    DeliveryPolicy → Outcome NotificationErrorCode DeliveryPolicy
validate_delivery_policy policy =
    if is_invalid_delivery_policy policy then throw notification_outbox_state_invalid else ok policy

abbrev pub smaller : ℕ → ℕ → ℕ
smaller a b = if leb a b then a else b

-- `retryDelaySeconds` of a policy that it has validated.
unfoldable pub delay_seconds : DeliveryPolicy → ℕ → ℕ
delay_seconds policy attempt_count =
    smaller policy.retry_max_seconds (policy.retry_base_seconds * 2 ^ (attempt_count - 1))

unfoldable pub retry_delay_seconds : DeliveryPolicy → ℕ → Outcome NotificationErrorCode ℕ
retry_delay_seconds policy attempt_count =
    if is_invalid_delivery_policy policy
    then throw notification_outbox_state_invalid
    else if is_unsafe attempt_count || ltb attempt_count 1
    then throw notification_outbox_state_invalid
    else ok (delay_seconds policy attempt_count)

unfoldable pub normalize_locale : Text → NotificationLocale
normalize_locale locale = if text_eq locale (codes "en") then en else fa

-- `defaultPreference(type).emailEnabled`.
unfoldable pub default_email_enabled : NotificationType → Bool
default_email_enabled rating_updated = false
default_email_enabled _ = true
