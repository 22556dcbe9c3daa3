-- ===== src/Notifications/Transitions.antt =====
-- What a transition of an open message commits
-- (packages/notifications/src/infrastructure/prisma-notification-repository.ts).
use arena_core.Prelude.{
  ℕ, suc, ◌≡◌, refl, Bool, true, false, ◌&&◌, Option, none, some, List, [], ◌∷◌, Text, arith, ltb,
  ◌==◌, ==_refl, find, any, all, is_some, find-passes, Bool-cases, &&_split, inl, inr,
}
use arena_core.Prelude.Outcome.{ok}
use arena_core.Prelude.Action.{and_then, refuse_if, require}
use arena_core.Notifications.Types.{
  OutboxStatus, pending, processing, delivered, retry_scheduled, failed, dead_lettered, cancelled,
  OutboxRecord, OutboxStore,
}
use arena_core.Notifications.Outbox.{
  is_open, state_check, claim_check, message_checks, update_where, update_messages, message_by_id,
  find_outbox_message, updated_message, Change, moved, may_move, transition, delivered_change,
  retry_change, dead_letter_change, cancel_change,
}

module _ {A : Type 0} (p t : A → Bool) (f : A → A) where
  -- The first row that a search finds is updated when it passes the test.
  pub any-found : (xs : List A) {x : A} → find p xs ≡ some x → t x ≡ true → any t xs ≡ true
  any-found [] e h = cc
  any-found (y ∷ ys) {x} e h = elim (Bool-cases (p y)) [
    | inl here ↦
        let same : some y ≡ some x = rw here at e in let passes : t y ≡ true = cc in rw passes refl
    | inr later ↦
        let rest = any-found ys (rw later at e) h in
        elim (Bool-cases (t y)) [ inl passes ↦ rw passes refl | inr fails ↦ rw (fails, rest) refl ]
  ]

  pub find-update_where :
      (xs : List A) {x : A}
      → ((y : A) → t y ≡ true → p y ≡ true)
      → ((y : A) → p (f y) ≡ p y)
      → find p xs ≡ some x
      → t x ≡ true
      → find p (update_where t f xs) ≡ some (f x)
  find-update_where [] narrow kept e h = cc
  find-update_where (y ∷ ys) {x} narrow kept e h = elim (Bool-cases (p y)) [
    | inl here ↦
        let same : some y ≡ some x = rw here at e in
        let passes : t y ≡ true = cc in
        let moves : some (f y) ≡ some (f x) = cc in rw (passes, kept y, here) moves
    | inr later ↦
        let rest = find-update_where ys narrow kept (rw later at e) h in
        elim (Bool-cases (t y)) [
          | inl passes ↦ let clash : p y ≡ true = narrow y passes in cc
          | inr fails ↦ rw (fails, later, rest) refl
        ]
  ]

all-update_where :
    {A : Type 0} (c t : A → Bool) (f : A → A) (xs : List A)
    → ((y : A) → t y ≡ true → c y ≡ true → c (f y) ≡ true)
    → all c xs ≡ true
    → all c (update_where t f xs) ≡ true
all-update_where c t f [] step h = refl
all-update_where c t f (y ∷ ys) step h =
    let both = &&_split (c y) (all c ys) h in
    let rest = all-update_where c t f ys step both.1 in
    elim (Bool-cases (t y)) [
      | inl passes ↦ rw (passes, step y passes both.0, rest) refl
      | inr fails ↦ rw (fails, both.0, rest) refl
    ]

-- Neither time is set in an open row.
open_times :
    (status : OutboxStatus) (delivered_at dead_lettered_at : Option ℕ)
    → is_open status ≡ true
    → state_check status delivered_at dead_lettered_at ≡ true
    → (is_some delivered_at ≡ false) × (is_some dead_lettered_at ≡ false)
unfolding is_open state_check
open_times pending d l o h = ground arith
open_times processing d l o h = ground arith
open_times retry_scheduled d l o h = ground arith
open_times delivered d l o h = cc
open_times failed d l o h = cc
open_times dead_lettered d l o h = cc
open_times cancelled d l o h = cc

-- A change that leaves the CHECK constraints of an open row true.
pub IsAllowed : (OutboxRecord → Change) → Type 0
IsAllowed change =
    (m : OutboxRecord)
    → is_some m.delivered_at ≡ false
    → is_some m.dead_lettered_at ≡ false
    → (claim_check (change m).status none none ≡ true)
      × (state_check (change m).status (change m).delivered_at (change m).dead_lettered_at ≡ true)

pub delivered_change-IsAllowed : (now : ℕ) → IsAllowed (delivered_change now)
unfolding IsAllowed delivered_change claim_check state_check
delivered_change-IsAllowed now m d l = (refl, rw l refl)

pub retry_change-IsAllowed :
    (now available_at : ℕ) (code : Text) → IsAllowed (retry_change now available_at code)
unfolding IsAllowed retry_change claim_check state_check
retry_change-IsAllowed now available_at code m d l = (refl, rw (d, l) refl)

pub dead_letter_change-IsAllowed : (now : ℕ) (code : Text) → IsAllowed (dead_letter_change now code)
unfolding IsAllowed dead_letter_change claim_check state_check
dead_letter_change-IsAllowed now code m d l = (refl, rw d refl)

pub cancel_change-IsAllowed : (now : ℕ) (code : Text) → IsAllowed (cancel_change now code)
unfolding IsAllowed cancel_change claim_check state_check
cancel_change-IsAllowed now code m d l = (refl, rw (d, l) refl)

moved-checks :
    (change : OutboxRecord → Change) (m : OutboxRecord)
    → IsAllowed change
    → is_open m.status ≡ true
    → message_checks m ≡ true
    → message_checks (moved change m) ≡ true
unfolding IsAllowed message_checks moved
moved-checks change m allowed o h =
    let first =
      &&_split (ltb 0 m.version && claim_check m.status m.claim_token m.claim_expires_at)
        (state_check m.status m.delivered_at m.dead_lettered_at) h in
    let times = open_times m.status m.delivered_at m.dead_lettered_at o first.1 in
    let later = allowed m times.0 times.1 in
    let positive : ltb 0 (suc m.version) ≡ true = ground arith in
    rw (positive, later.0, later.1) refl

-- The store after a transition.
unfoldable pub after_transition : ℕ → ℕ → (OutboxRecord → Change) → OutboxStore → OutboxStore
after_transition id version change s = record s {
  messages = update_where (may_move id version) (moved change) s.messages;
}

module _ (id : ℕ) (change : OutboxRecord → Change) (s : OutboxStore) (m : OutboxRecord)
    (allowed : IsAllowed change) (checked : all message_checks s.messages ≡ true)
    (found : message_by_id id s.messages ≡ some m) (opened : is_open m.status ≡ true) where
  passes : may_move id m.version m ≡ true
  unfolding may_move message_by_id
  passes =
      let same : (m.id == id) ≡ true =
        find-passes (λ (x : OutboxRecord). x.id == id) s.messages found in
      rw (same, ==_refl m.version, opened) refl

  pub after_transition-checked :
      all message_checks (after_transition id m.version change s).messages ≡ true
  unfolding after_transition may_move
  after_transition-checked =
      all-update_where message_checks (may_move id m.version) (moved change) s.messages
        (λ y h c.
          let ids = &&_split (y.id == id) (y.version == m.version && is_open y.status) h in
          moved-checks change y allowed
            (&&_split (y.version == m.version) (is_open y.status) ids.1).1 c)
        checked

  pub after_transition-found :
      message_by_id id (after_transition id m.version change s).messages ≡ some (moved change m)
  unfolding after_transition may_move message_by_id moved
  after_transition-found =
      find-update_where (λ (x : OutboxRecord). x.id == id) (may_move id m.version) (moved change)
        s.messages (λ y h. (&&_split (y.id == id) (y.version == m.version && is_open y.status) h).0)
        (λ y. refl) found passes

  -- The transition of an open message commits.
  pub transition-commits :
      transition id m.version change s
      ≡ (ok (moved change m), after_transition id m.version change s)
  unfolding transition update_messages updated_message find_outbox_message and_then refuse_if
      require after_transition message_by_id
  transition-commits =
      let some_moved =
        any-found (λ (x : OutboxRecord). x.id == id) (may_move id m.version) (moved change)
          s.messages found passes in
      rw (after_transition-checked, some_moved, after_transition-found) refl
