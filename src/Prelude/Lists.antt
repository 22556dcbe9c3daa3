-- ===== src/Prelude/Lists.antt =====
-- Lists over the native numbers, searched and filtered by Boolean tests.
use Prim.Native.Nat.{ℕ, zero, suc, ◌≤◌}
use native.Mathlib.Omega.{arith}
use mathlib.Core.Path.{◌≡◌, refl, ap, ◌∙◌, subst}
use mathlib.Core.Bool.{Bool, true, false, ◌&&◌, ◌||◌}
use mathlib.Core.List.{List, [], ◌∷◌}
use mathlib.Core.Option.{Option, none, some}
use mathlib.Core.Logic.{inl, inr}
use arena_core.Prelude.Tests.{◌==◌, if◌then◌else◌, Bool-cases, &&_split}

module _ {ℓ} {A : Type ℓ} where
  abbrev pub length : List A → ℕ
  length [] = 0
  length (x ∷ xs) = suc (length xs)

  -- `Array.prototype.find`, `some`, `every` and `filter`.
  abbrev pub find : (A → Bool) → List A → Option A
  find p [] = none
  find p (x ∷ xs) = if p x then some x else find p xs

  abbrev pub any : (A → Bool) → List A → Bool
  any p [] = false
  any p (x ∷ xs) = p x || any p xs

  abbrev pub all : (A → Bool) → List A → Bool
  all p [] = true
  all p (x ∷ xs) = p x && all p xs

  abbrev pub keep : (A → Bool) → List A → List A
  keep p [] = []
  keep p (x ∷ xs) = let rest = keep p xs in if p x then x ∷ rest else rest

  abbrev pub take : ℕ → List A → List A
  take zero xs = []
  take (suc n) [] = []
  take (suc n) (x ∷ xs) = x ∷ take n xs

  -- `orderBy`: the rows by insertion, each before the first that it may stand before.
  abbrev pub insert_by : (A → A → Bool) → A → List A → List A
  insert_by before x [] = x ∷ []
  insert_by before x (y ∷ ys) =
      let rest = insert_by before x ys in if before x y then x ∷ (y ∷ ys) else y ∷ rest

  unfoldable pub sort_by : (A → A → Bool) → List A → List A
  sort_by before [] = []
  sort_by before (x ∷ xs) = insert_by before x (sort_by before xs)

-- Membership in a list of identifiers.
abbrev pub contains : List ℕ → ℕ → Bool
contains [] a = false
contains (x ∷ xs) a = x == a || contains xs a

abbrev pub distinct : List ℕ → Bool
distinct [] = true
distinct (x ∷ xs) = (if contains xs x then false else true) && distinct xs

-- What `find` returns passes its test.
module _ {ℓ} {A : Type ℓ} where
  pub find-passes : (t : A → Bool) (xs : List A) {x : A} → find t xs ≡ some x → t x ≡ true
  find-passes t [] e = cc
  find-passes t (y ∷ ys) {x} e = elim (Bool-cases (t y)) [
    | inl passes ↦
        let same : some y ≡ some x = rw passes at e in subst (λ z. t z ≡ true) (cc same) passes
    | inr fails ↦ find-passes t ys (rw fails at e)
  ]

  pub all-find :
      (p t : A → Bool) (xs : List A) {x : A} → all t xs ≡ true → find p xs ≡ some x → t x ≡ true
  all-find p t [] h e = cc
  all-find p t (y ∷ ys) {x} h e = elim (Bool-cases (p y)) [
    | inl passes ↦
        let same : some y ≡ some x = rw passes at e in
        subst (λ z. t z ≡ true) (cc same) (&&_split (t y) (all t ys) h).0
    | inr fails ↦ all-find p t ys (&&_split (t y) (all t ys) h).1 (rw fails at e)
  ]

module _ {ℓ κ} {A : Type ℓ} where
  abbrev pub All : (A → Type κ) → List A → Type κ
  All P [] = Unit
  All P (x ∷ xs) = P x × All P xs

  pub All-map : (P Q : A → Type κ) (xs : List A) → ((x : A) → P x → Q x) → All P xs → All Q xs
  All-map P Q [] f h = tt
  All-map P Q (x ∷ xs) f (p, h) = (f x p, All-map P Q xs f h)

  -- What `find` returns passes its test, and has what holds of all.
  pub All-find :
      (P : A → Type κ) (t : A → Bool) (xs : List A) {x : A}
      → All P xs
      → find t xs ≡ some x
      → P x × (t x ≡ true)
  All-find P t [] h e = cc
  All-find P t (y ∷ ys) {x} h e = elim (Bool-cases (t y)) [
    | inl passes ↦
        let same : some y ≡ some x = rw passes at e in
        subst (λ z. P z × (t z ≡ true)) (cc same) (h.0, passes)
    | inr fails ↦ All-find P t ys h.1 (rw fails at e)
  ]

  -- Choosing and ordering keep what holds of all.
  pub All-keep : (P : A → Type κ) (t : A → Bool) (xs : List A) → All P xs → All P (keep t xs)
  All-keep P t [] h = tt
  All-keep P t (x ∷ xs) (p, h) = elim (Bool-cases (t x)) [
    | inl kept ↦ rw kept (p, All-keep P t xs h)
    | inr dropped ↦ rw dropped (All-keep P t xs h)
  ]

  All-insert_by :
      (P : A → Type κ) (before : A → A → Bool) (x : A) (xs : List A)
      → P x
      → All P xs
      → All P (insert_by before x xs)
  All-insert_by P before x [] p h = (p, tt)
  All-insert_by P before x (y ∷ ys) p (q, h) = elim (Bool-cases (before x y)) [
    | inl first ↦ rw first (p, (q, h))
    | inr later ↦ rw later (q, All-insert_by P before x ys p h)
  ]

  pub All-sort_by :
      (P : A → Type κ) (before : A → A → Bool) (xs : List A) → All P xs → All P (sort_by before xs)
  unfolding sort_by
  All-sort_by P before [] h = tt
  All-sort_by P before (x ∷ xs) (p, h) =
      All-insert_by P before x (sort_by before xs) p (All-sort_by P before xs h)

  pub All-take : (P : A → Type κ) (n : ℕ) (xs : List A) → All P xs → All P (take n xs)
  All-take P zero xs h = tt
  All-take P (suc n) [] h = tt
  All-take P (suc n) (x ∷ xs) (p, h) = (p, All-take P n xs h)

module _ {ℓ} {A : Type ℓ} where
  pub All-all : (t : A → Bool) (xs : List A) → all t xs ≡ true → All (λ x. t x ≡ true) xs
  All-all t [] h = tt
  All-all t (x ∷ xs) h = let both = &&_split (t x) (all t xs) h in (both.0, All-all t xs both.1)

  length-insert_by :
      (before : A → A → Bool) (x : A) (xs : List A)
      → length (insert_by before x xs) ≡ suc (length xs)
  length-insert_by before x [] = refl
  length-insert_by before x (y ∷ ys) = elim (Bool-cases (before x y)) [
    | inl first ↦ rw first refl
    | inr later ↦ rw (later, length-insert_by before x ys) refl
  ]

  pub length-sort_by :
      (before : A → A → Bool) (xs : List A) → length (sort_by before xs) ≡ length xs
  unfolding sort_by
  length-sort_by before [] = refl
  length-sort_by before (x ∷ xs) =
      length-insert_by before x (sort_by before xs) ∙ ap suc (length-sort_by before xs)

  pub take-all : (n : ℕ) (xs : List A) → length xs ≤ n → take n xs ≡ xs
  take-all zero [] h = refl
  take-all zero (x ∷ xs) h = absurd (omega arith)
  take-all (suc n) [] h = refl
  take-all (suc n) (x ∷ xs) h = ap (λ ys. x ∷ ys) (take-all n xs (omega arith))
