-- ===== src/Prelude/Guarded.antt =====
-- An outcome, or a throw in its place: what a further check makes of a transaction.
use mathlib.Core.Bool.{Bool, true, false}
use arena_core.Prelude.Outcome.{Outcome, throw, Tx, after, throw_if, Ensures, rolled_back}

pub data Guarded {S E A : Type 0} (r : Outcome E (A × S)) : Outcome E (A × S) → Type 0 where
  passed : Guarded r r
  refused : {e : E} → Guarded r (throw e)

module _ {S E A : Type 0} where
  pub Ensures-Guarded :
      {P : A → S → Type 0} {r r' : Outcome E (A × S)} → Guarded r r' → Ensures P r → Ensures P r'
  Ensures-Guarded passed h = h
  Ensures-Guarded refused h = rolled_back

  pub Guarded-throw_if :
      (b : Bool) (e : E) (s : S) (k : Unit {0} → Tx S E A) {r : Outcome E (A × S)}
      → Guarded r (k tt s)
      → Guarded r (after (throw_if b e s) k)
  unfolding after throw_if
  Guarded-throw_if true e s k h = refused
  Guarded-throw_if false e s k h = h

module _ {S E A B : Type 0} where
  -- What holds after the outcome holds after the guarded one.
  pub Ensures-Guarded-after :
      {P : B → S → Type 0} {r r' : Outcome E (A × S)} (k : A → Tx S E B)
      → Guarded r r'
      → Ensures P (after r k)
      → Ensures P (after r' k)
  unfolding after
  Ensures-Guarded-after k passed h = h
  Ensures-Guarded-after k refused h = rolled_back

  pub Guarded-after :
      {r r' : Outcome E (A × S)} {q : Outcome E (B × S)} (k : A → Tx S E B)
      → Guarded r r'
      → Guarded q (after r k)
      → Guarded q (after r' k)
  unfolding after
  Guarded-after k passed h = h
  Guarded-after k refused h = refused
