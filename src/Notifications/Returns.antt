-- ===== src/Notifications/Returns.antt =====
-- What a call on the outbox leaves when it returns a value: its throw aside
-- (packages/notifications/src/infrastructure/prisma-notification-repository.ts).
use mathlib.Core.Path.{subst}
use arena_core.Prelude.{
  ◌≡◌, refl, Bool, true, false, not, ◌&&◌, Option, none, some, ◌==◌, ==_refl, any, all, Bool-cases,
  &&_split, inl, inr,
}
use arena_core.Prelude.Outcome.{Outcome, ok, throw}
use arena_core.Prelude.Action.{and_then, refuse_if, require}
use arena_core.Notifications.Types.{
  DeliveryFailure, NotificationErrorCode, notification_error, notification_persistence_failure,
  notification_deduplication_conflict, OutboxRecord, OutboxStore,
}
use arena_core.Notifications.Outbox.{
  OutboxAction, is_open, message_checks, update_where, update_messages, message_by_id,
  find_outbox_message, updated_message, attempt_checks, same_attempt, append_delivery_attempt,
  Change, moved, may_move, transition,
}
use arena_core.Notifications.Delivery.{Round, AttemptOutcome, new_attempt, attempt, policy_value}
use arena_core.Notifications.Transitions.{any-found, find-update_where}

-- What holds of the value and the store of a call that returns.
pub data Returns {A : Type 0} (P : A → OutboxStore → Type 0)
    : Outcome DeliveryFailure A × OutboxStore → Type 0 where
  returned : {a : A} {s : OutboxStore} → P a s → Returns P (ok a, s)
  threw : {e : DeliveryFailure} {s : OutboxStore} → Returns P (throw e, s)

module _ {A B : Type 0} {P : A → OutboxStore → Type 0} where
  pub Returns-and_then :
      {Q : B → OutboxStore → Type 0} {r : Outcome DeliveryFailure B × OutboxStore}
      (k : B → OutboxAction A)
      → Returns Q r
      → ((b : B) (s : OutboxStore) → Q b s → Returns P (k b s))
      → Returns P (and_then r k)
  unfolding and_then
  Returns-and_then k (returned {a = b} {s = s} q) h = h b s q
  Returns-and_then k threw h = threw

  pub Returns-require :
      (o : Option B) (e : DeliveryFailure) (s : OutboxStore) (k : B → OutboxAction A)
      → ((b : B) → Returns P (k b s))
      → Returns P (and_then (require o e s) k)
  unfolding and_then require
  Returns-require none e s k h = threw
  Returns-require (some b) e s k h = h b

  pub Returns-policy_value :
      (o : Outcome NotificationErrorCode B) (s : OutboxStore) (k : B → OutboxAction A)
      → ((b : B) → Returns P (k b s))
      → Returns P (and_then (policy_value o s) k)
  unfolding and_then policy_value
  Returns-policy_value (throw e) s k h = threw
  Returns-policy_value (ok b) s k h = h b

pub Returns-refuse_if :
    {A : Type 0} {P : A → OutboxStore → Type 0} (b : Bool) (e : DeliveryFailure) (s : OutboxStore)
    (k : Unit {0} → OutboxAction A)
    → (b ≡ false → Returns P (k tt s))
    → Returns P (and_then (refuse_if b e s) k)
unfolding and_then refuse_if
Returns-refuse_if true e s k h = threw
Returns-refuse_if false e s k h = h refl

pub Returns-map :
    {A : Type 0} {P Q : A → OutboxStore → Type 0} {r : Outcome DeliveryFailure A × OutboxStore}
    → Returns P r
    → ((a : A) (s : OutboxStore) → P a s → Q a s)
    → Returns Q r
Returns-map (returned {a = a} {s = s} p) f = returned (f a s p)
Returns-map threw f = threw

-- What holds of an outcome and a store, if a value is returned.
abbrev IfReturned :
    {A : Type 0} → (A → OutboxStore → Type 0) → Outcome DeliveryFailure A × OutboxStore → Type 0
IfReturned P (ok a, s) = P a s
IfReturned P _ = Unit

if_returned :
    {A : Type 0} {P : A → OutboxStore → Type 0} {r : Outcome DeliveryFailure A × OutboxStore}
    → Returns P r
    → IfReturned P r
if_returned (returned p) = p
if_returned threw = tt

pub of_return :
    {A : Type 0} {P : A → OutboxStore → Type 0} {r : Outcome DeliveryFailure A × OutboxStore}
    {a : A} {s : OutboxStore}
    → Returns P r
    → r ≡ (ok a, s)
    → P a s
of_return {P = P} p e = subst (IfReturned P) e (if_returned p)

pub attempt-Returns :
    (round : Round) (m : OutboxRecord) (outcome : AttemptOutcome) (s : OutboxStore)
    → Returns (λ a t. t.messages ≡ s.messages) (attempt round m outcome s)
unfolding attempt append_delivery_attempt and_then
attempt-Returns round m outcome s =
    Returns-refuse_if (not (attempt_checks (new_attempt round m outcome)))
      (notification_error notification_persistence_failure) s _
      λ valid.
        Returns-refuse_if (any (same_attempt (new_attempt round m outcome)) s.attempts)
          (notification_error notification_deduplication_conflict) s _ λ new. returned refl

module _ (m : OutboxRecord) (opened : is_open m.status ≡ true) (t : OutboxStore)
    (found : message_by_id m.id t.messages ≡ some m) where
  -- A transition that returns has moved the message.
  pub transition-Returns :
      (change : OutboxRecord → Change)
      → Returns
          (λ m' t'. (m' ≡ moved change m) × (message_by_id m.id t'.messages ≡ some m'))
          (transition m.id m.version change t)
  unfolding transition update_messages updated_message find_outbox_message may_move message_by_id
      and_then refuse_if require moved
  transition-Returns change =
      let passes : may_move m.id m.version m ≡ true =
        rw (==_refl m.id, ==_refl m.version, opened) refl in
      let some_moved =
        any-found (λ (x : OutboxRecord). x.id == m.id) (may_move m.id m.version) (moved change)
          t.messages found passes in
      let moves =
        find-update_where (λ (x : OutboxRecord). x.id == m.id) (may_move m.id m.version)
          (moved change) t.messages
          (λ y h. (&&_split (y.id == m.id) (y.version == m.version && is_open y.status) h).0)
          (λ y. refl) found passes in
      elim (Bool-cases
        (all message_checks (update_where (may_move m.id m.version) (moved change) t.messages))) [
          | inl valid ↦ rw (valid, some_moved, moves) (returned (refl, moves))
          | inr broken ↦ rw broken threw
        ]
