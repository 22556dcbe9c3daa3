-- ===== src/Prelude/Action.antt =====
-- Calls on a database outside a transaction: what was written before an error stays written.
use mathlib.Core.Bool.{Bool, true, false}
use mathlib.Core.Option.{Option, none, some}
use arena_core.Prelude.Outcome.{Outcome, ok, throw}

abbrev pub Action : Type 0 → Type 0 → Type 0 → Type 0
Action S E A = S → Outcome E A × S

module _ {S E A B : Type 0} where
  unfoldable pub and_then : Outcome E A × S → (A → Action S E B) → Outcome E B × S
  and_then (ok a, s) f = f a s
  and_then (throw e, s) f = (throw e, s)

infixl 5 ◌>>=◌ ◌>>◌
abbrev pub ◌>>=◌ : {S E A B : Type 0} → Action S E A → (A → Action S E B) → Action S E B
◌>>=◌ m f s = and_then (m s) f

abbrev pub ◌>>◌ : {S E A B : Type 0} → Action S E A → Action S E B → Action S E B
◌>>◌ m k s = and_then (m s) (λ _. k)

module _ {S E : Type 0} where
  abbrev pub give : {A : Type 0} → A → Action S E A
  give a s = (ok a, s)

  abbrev pub read : {A : Type 0} → (S → A) → Action S E A
  read f s = (ok (f s), s)

  abbrev pub write : (S → S) → Action S E (Unit {0})
  write f s = (ok tt, f s)

  -- `if (test) throw new Error(e)`.
  unfoldable pub refuse_if : Bool → E → Action S E (Unit {0})
  refuse_if true e s = (throw e, s)
  refuse_if false e s = (ok tt, s)

  -- `if (!value) throw new Error(e)`.
  unfoldable pub require : {A : Type 0} → Option A → E → Action S E A
  require none e s = (throw e, s)
  require (some a) e s = (ok a, s)
