-- ===== src/Notifications/Delays.antt =====
-- The bounds of the delay before a retry (packages/notifications/src/domain/delivery-policies.ts).
use arena_core.Prelude.{ℕ, zero, suc, ◌-◌, ◌*◌, ◌^◌, ◌≡◌, ◌≤◌, refl, false, ◌||◌, arith, ltb}
use arena_core.Prelude.Outcome.{ok}
use arena_core.Notifications.Policies.{
  DeliveryPolicy, smaller, is_invalid_delivery_policy, delay_seconds, retry_delay_seconds,
}

-- The bounds that a policy has when it is valid.
pub valid_bounds :
    (policy : DeliveryPolicy)
    → is_invalid_delivery_policy policy ≡ false
    → (policy.max_attempts ≤ 20) × (policy.retry_base_seconds ≤ policy.retry_max_seconds)
unfolding is_invalid_delivery_policy
valid_bounds policy valid = (ground arith, ground arith)

power_positive : (n : ℕ) → 1 ≤ 2 ^ n
power_positive zero = omega arith
power_positive (suc n) = let before = power_positive n in grind arith

grows : (base power : ℕ) → 1 ≤ power → base ≤ base * power
grows base zero h = absurd (omega arith)
grows base (suc power) h = grind arith

pub delay-bounded :
    (policy : DeliveryPolicy) (attempt_count : ℕ)
    → is_invalid_delivery_policy policy ≡ false
    → (policy.retry_base_seconds ≤ delay_seconds policy attempt_count)
      × (delay_seconds policy attempt_count ≤ policy.retry_max_seconds)
unfolding delay_seconds
delay-bounded policy attempt_count valid =
    let bounds = valid_bounds policy valid in
    let power =
      grows policy.retry_base_seconds (2 ^ (attempt_count - 1))
        (power_positive (attempt_count - 1)) in
    (ground arith, ground arith)

doubles : (base n : ℕ) → base * 2 ^ n ≤ base * 2 ^ suc n
doubles base n = grind arith

smaller-monotone : (c a b : ℕ) → a ≤ b → smaller c a ≤ smaller c b
smaller-monotone c a b h = ground arith

pub delay-monotone :
    (policy : DeliveryPolicy) (attempt_count : ℕ)
    → delay_seconds policy attempt_count ≤ delay_seconds policy (suc attempt_count)
unfolding delay_seconds
delay-monotone policy zero = ground arith
delay-monotone policy (suc n) =
    let now : suc n - 1 ≡ n = omega arith in
    let next : suc (suc n) - 1 ≡ suc n = omega arith in
    rw (now, next)
      (smaller-monotone policy.retry_max_seconds (policy.retry_base_seconds * 2 ^ n)
        (policy.retry_base_seconds * 2 ^ suc n) (doubles policy.retry_base_seconds n))

-- A valid policy delays the retry after an attempt from 1 to 2^53-1 by the base at least and the maximum at
-- most, and after the next attempt by no less.
pub retry_delay_seconds-bounded :
    (policy : DeliveryPolicy) (attempt_count : ℕ)
    → is_invalid_delivery_policy policy ≡ false
    → 1 ≤ attempt_count
    → attempt_count ≤ 9007199254740991
    → (retry_delay_seconds policy attempt_count ≡ ok (delay_seconds policy attempt_count))
      × (policy.retry_base_seconds ≤ delay_seconds policy attempt_count)
      × (delay_seconds policy attempt_count ≤ policy.retry_max_seconds)
      × (delay_seconds policy attempt_count ≤ delay_seconds policy (suc attempt_count))
unfolding retry_delay_seconds
retry_delay_seconds-bounded policy attempt_count valid positive safe =
    let bounds = delay-bounded policy attempt_count valid in
    let in_range : (ltb 9007199254740991 attempt_count || ltb attempt_count 1) ≡ false =
      ground arith in
    (rw (valid, in_range) refl, bounds.0, bounds.1, delay-monotone policy attempt_count)
