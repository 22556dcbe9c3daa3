-- ===== src/Prelude/Outcome.antt =====
-- A database transaction: it reads and writes a state, and what it throws rolls it back.
use mathlib.Core.Path.{◌≡◌, refl, subst}
use mathlib.Core.Bool.{Bool, true, false}
use mathlib.Core.Option.{Option, none, some}

pub data Outcome (E A : Type 0) : Type 0 where
  ok : A → Outcome E A
  throw : E → Outcome E A

abbrev pub Tx : Type 0 → Type 0 → Type 0 → Type 0
Tx S E A = S → Outcome E (A × S)

module _ {S E A B : Type 0} where
  unfoldable pub after : Outcome E (A × S) → (A → Tx S E B) → Outcome E (B × S)
  after (ok (a, s)) f = f a s
  after (throw e) f = throw e

infixl 5 ◌>>=◌ ◌>>◌
abbrev pub ◌>>=◌ : {S E A B : Type 0} → Tx S E A → (A → Tx S E B) → Tx S E B
◌>>=◌ m f s = after (m s) f

abbrev pub ◌>>◌ : {S E A B : Type 0} → Tx S E A → Tx S E B → Tx S E B
◌>>◌ m k s = after (m s) (λ _. k)

module _ {S E : Type 0} where
  abbrev pub pure : {A : Type 0} → A → Tx S E A
  pure a s = ok (a, s)

  abbrev pub fail : {A : Type 0} → E → Tx S E A
  fail e s = throw e

  abbrev pub gets : {A : Type 0} → (S → A) → Tx S E A
  gets f s = ok (f s, s)

  abbrev pub modify : (S → S) → Tx S E (Unit {0})
  modify f s = ok (tt, f s)

  -- `if (test) throw new Error(e)`.
  unfoldable pub throw_if : Bool → E → Tx S E (Unit {0})
  throw_if true e s = throw e
  throw_if false e s = ok (tt, s)

  -- `if (!value) throw new Error(e)`.
  unfoldable pub or_throw : {A : Type 0} → Option A → E → Tx S E A
  or_throw none e s = throw e
  or_throw (some a) e s = ok (a, s)

-- What holds of the value and the state that a transaction commits.
pub data Ensures {S E A : Type 0} (P : A → S → Type 0) : Outcome E (A × S) → Type 0 where
  committed : {a : A} {s : S} → P a s → Ensures P (ok (a, s))
  rolled_back : {e : E} → Ensures P (throw e)

module _ {S E A B : Type 0} where
  pub Ensures-after :
      {P : A → S → Type 0} {Q : B → S → Type 0} {r : Outcome E (A × S)} {f : A → Tx S E B}
      → Ensures P r
      → ((a : A) (s : S) → P a s → Ensures Q (f a s))
      → Ensures Q (after r f)
  unfolding after
  Ensures-after (committed {a = a} {s = s} p) k = k a s p
  Ensures-after rolled_back k = rolled_back

module _ {S E B : Type 0} {Q : B → S → Type 0} where
  pub Ensures-throw_if :
      (b : Bool) (e : E) (s : S) (k : Unit {0} → Tx S E B)
      → (b ≡ false → Ensures Q (k tt s))
      → Ensures Q (after (throw_if b e s) k)
  unfolding after throw_if
  Ensures-throw_if true e s k h = rolled_back
  Ensures-throw_if false e s k h = h refl

  pub Ensures-or_throw :
      {A : Type 0} (o : Option A) (e : E) (s : S) (k : A → Tx S E B)
      → ((a : A) → o ≡ some a → Ensures Q (k a s))
      → Ensures Q (after (or_throw o e s) k)
  unfolding after or_throw
  Ensures-or_throw none e s k h = rolled_back
  Ensures-or_throw (some a) e s k h = h a refl

  pub Ensures-ok :
      {A : Type 0} (a : A) (s : S) (k : A → Tx S E B)
      → Ensures Q (k a s)
      → Ensures Q (after (ok (a, s)) k)
  unfolding after
  Ensures-ok a s k h = h

pub Ensures-map :
    {S E A : Type 0} {P Q : A → S → Type 0} {r : Outcome E (A × S)}
    → Ensures P r
    → ((a : A) (s : S) → P a s → Q a s)
    → Ensures Q r
Ensures-map (committed {a = a} {s = s} p) f = committed (f a s p)
Ensures-map rolled_back f = rolled_back

-- What holds of an outcome, if it is a commit.
abbrev Commits : {S E A : Type 0} → (A → S → Type 0) → Outcome E (A × S) → Type 0
Commits P (ok (a, s)) = P a s
Commits P _ = Unit

commits : {S E A : Type 0} {P : A → S → Type 0} {r : Outcome E (A × S)} → Ensures P r → Commits P r
commits (committed q) = q
commits rolled_back = tt

-- What every commit has, this commit has.
pub of_commit :
    {S E A : Type 0} {P : A → S → Type 0} {r : Outcome E (A × S)} {a : A} {s : S}
    → Ensures P r
    → r ≡ ok (a, s)
    → P a s
of_commit {P = P} p e = subst (Commits P) e (commits p)

-- Two things that hold of what a transaction commits.
pub Ensures-both :
    {S E A : Type 0} {P Q : A → S → Type 0} (r : Outcome E (A × S))
    → Ensures P r
    → Ensures Q r
    → Ensures (λ a s. P a s × Q a s) r
Ensures-both {P = P} {Q = Q} (ok (a, s)) p q = committed (commits p, commits q)
Ensures-both (throw e) p q = rolled_back

-- What only reads leaves the state to what follows.
pub Ensures-reading :
    {S E A B : Type 0} {Q : B → S → Type 0} {s : S} {r : Outcome E (A × S)} (k : A → Tx S E B)
    → Ensures (λ _ t. t ≡ s) r
    → ((a : A) → Ensures Q (k a s))
    → Ensures Q (after r k)
Ensures-reading k e h = Ensures-after e λ a t same. rw same (h a)

-- A choice by a value that may be missing.
pub Ensures-elim :
    {S E A B : Type 0} {Q : B → S → Type 0} (o : Option A) (s : S) (k : Tx S E B) (f : A → Tx S E B)
    → (o ≡ none → Ensures Q (k s))
    → ((a : A) → o ≡ some a → Ensures Q (f a s))
    → Ensures Q ((elim o as (λ _. Tx S E B) [ none ↦ k | some a ↦ f a ]) s)
Ensures-elim none s k f h h' = h refl
Ensures-elim (some a) s k f h h' = h' a refl

pub Ensures-any : {S E A : Type 0} (r : Outcome E (A × S)) → Ensures (λ _ _. Unit {0}) r
Ensures-any (ok (a, s)) = committed tt
Ensures-any (throw e) = rolled_back
