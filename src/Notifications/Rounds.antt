-- ===== src/Notifications/Rounds.antt =====
-- A message that is delivered again and again
-- (packages/notifications/src/application/notification-delivery-service.ts).
use arena_core.Prelude.{
  ℕ, suc, ◌+◌, ◌*◌, ◌≡◌, ◌≤◌, ◌<◌, ◌⊎◌, refl, true, false, List, [], ◌∷◌, arith, map, contains,
  length, distinct, inl, inr,
}
use arena_core.Prelude.Outcome.{Outcome, ok}
use arena_core.Prelude.Action.{and_then, give, ◌>>=◌}
use arena_core.Notifications.Types.{DeliveryFailure, OutboxRecord, OutboxStore}
use arena_core.Notifications.Policies.{DeliveryPolicy, is_invalid_delivery_policy}
use arena_core.Notifications.Outbox.{OutboxAction, is_open}
use arena_core.Notifications.Delivery.{Templates, Round, deliver_outbox_message}
use arena_core.Notifications.Results.{IsAnswering, IsPrepared, Progressed, closed, scheduled}
use arena_core.Notifications.Progress.{deliver_outbox_message-Progressed}

-- Deliveries of a message by one round after the other, until it is closed.
unfoldable pub deliver_rounds :
    Templates → DeliveryPolicy → ℕ → Round → List Round → OutboxAction OutboxRecord
deliver_rounds templates policy id round [] = deliver_outbox_message templates policy round id
deliver_rounds templates policy id round (next ∷ rest) = do
  message ← deliver_outbox_message templates policy round id
  elim (is_open message.status) [
    | true ↦ deliver_rounds templates policy id next rest
    | false ↦ give message
  ]

-- Each round answers, and begins no earlier than the longest delay after the one before it.
unfoldable pub IsSpaced : DeliveryPolicy → Round → List Round → Type 0
IsSpaced policy round [] = IsAnswering round
IsSpaced policy round (next ∷ rest) =
    IsAnswering round
    × (round.clock 2 + policy.retry_max_seconds * 1000 ≤ next.clock 0)
    × IsSpaced policy next rest

abbrev pub attempt_ids : List Round → List ℕ
attempt_ids rounds = map (λ (r : Round). r.attempt_id) rounds

-- The identifiers of the later rounds' attempts do not contain an earlier one's.
attempt_apart :
    (id : ℕ) (ids : List ℕ)
    → distinct (id ∷ ids) ≡ true
    → (contains ids id ≡ false) × (distinct ids ≡ true)
attempt_apart id ids h = (ground arith, ground arith)

-- What is left after a round: nothing, or a prepared message with fewer attempts before it.
Remaining :
    Templates
    → DeliveryPolicy
    → List ℕ
    → ℕ
    → Round
    → OutboxRecord
    → OutboxRecord
    → OutboxStore
    → Type 0
Remaining templates policy ids id round m m' s' =
    IsPrepared templates ids id s' m'
    × (m'.attempt_count ≡ suc m.attempt_count)
    × (m'.attempt_count < policy.max_attempts)
    × (m'.available_at ≤ round.clock 2 + policy.retry_max_seconds * 1000)

progress :
    {templates : Templates} {policy : DeliveryPolicy} {ids : List ℕ} {id : ℕ} {round : Round}
    {m : OutboxRecord} {r : Outcome DeliveryFailure OutboxRecord × OutboxStore}
    → Progressed templates policy ids id round m r
    → (m' : OutboxRecord) × (s' : OutboxStore) × (r ≡ (ok m', s'))
      × ((is_open m'.status ≡ false) ⊎ Remaining templates policy ids id round m m' s')
unfolding Remaining
progress (closed {m' = m'} {s' = s'} h) = (m', s', refl, inl h)
progress (scheduled {m' = m'} {s' = s'} p count left soon) =
    (m', s', refl, inr (p, count, left, soon))

module _ (templates : Templates) (policy : DeliveryPolicy) (id : ℕ) (round next : Round)
    (rest : List Round) (s : OutboxStore) (m' : OutboxRecord) (s' : OutboxStore)
    (delivers : deliver_outbox_message templates policy round id s ≡ (ok m', s')) where
  stops :
      is_open m'.status ≡ false
      → deliver_rounds templates policy id round (next ∷ rest) s ≡ (ok m', s')
  unfolding deliver_rounds and_then
  stops h = rw (delivers, and_then, h) refl

  goes_on :
      {r : Outcome DeliveryFailure OutboxRecord × OutboxStore}
      → is_open m'.status ≡ true
      → deliver_rounds templates policy id next rest s' ≡ r
      → deliver_rounds templates policy id round (next ∷ rest) s ≡ r
  unfolding deliver_rounds and_then
  goes_on h e = rw (delivers, and_then, h) e

-- Under a valid policy, an open message that is due at the first round is closed by the rounds, if they
-- are as many as the attempts that the policy leaves it, begin after the longest delay, each
-- answers, and no attempt stands in the way.
pub deliver_rounds-closes :
    (templates : Templates) (policy : DeliveryPolicy) (id : ℕ) (round : Round) (rounds : List Round)
    (m : OutboxRecord) (s : OutboxStore)
    → is_invalid_delivery_policy policy ≡ false
    → IsSpaced policy round rounds
    → distinct (attempt_ids (round ∷ rounds)) ≡ true
    → IsPrepared templates (attempt_ids (round ∷ rounds)) id s m
    → m.available_at ≤ round.clock 0
    → policy.max_attempts ≤ m.attempt_count + suc (length rounds)
    → (m' : OutboxRecord) × (s' : OutboxStore) × (deliver_rounds templates policy id round rounds s
        ≡ (ok m', s'))
      × (is_open m'.status ≡ false)
unfolding deliver_rounds IsSpaced Remaining
deliver_rounds-closes templates policy id round [] m s valid spaced apart prepared due enough =
    let one = progress (
      deliver_outbox_message-Progressed templates policy valid [] round m s spaced refl id prepared
        due) in
    elim one.3 [ inl h ↦ (one.0, one.1, one.2, h) | inr more ↦ absurd (omega arith) ]
deliver_rounds-closes templates policy id round (next ∷ rest) m s valid spaced apart prepared due
      enough =
    let ids = attempt_ids (next ∷ rest) in
    let fresh = attempt_apart round.attempt_id ids apart in
    let one = progress (
      deliver_outbox_message-Progressed templates policy valid ids round m s spaced.0 fresh.0 id
        prepared due) in
    elim one.3 [
      | inl h ↦ (one.0, one.1, stops templates policy id round next rest s one.0 one.1 one.2 h, h)
      | inr more ↦
          let others =
            deliver_rounds-closes templates policy id next rest one.0 one.1 valid spaced.2 fresh.1
              more.0 (omega arith) (omega arith) in
          (
            others.0,
            others.1,
            goes_on templates policy id round next rest s one.0 one.1 one.2 more.0.opened others.2,
            others.3,
          )
    ]
