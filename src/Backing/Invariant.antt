-- ===== src/Backing/Invariant.antt =====
-- The invariant of the match finance tables: the escrow account of each match holds what the match's
-- reservations hold.
use arena_core.Prelude.{
  ℕ, ◌≡◌, refl, sym, ap, ◌∙◌, Bool, true, false, List, [], ◌∷◌, arith, Bool-cases, inl, inr, any,
  all, contains, distinct, All, All-map,
}
use arena_core.Prelude.Int.{ℤ, ◌+ℤ◌, ◌-ℤ◌, int_laws}
use arena_core.Prelude.Outcome.{
  Outcome, Ensures, committed, rolled_back, after, Ensures-throw_if, Ensures-ok, throw_if,
}
use arena_core.Ledger.{Ledger}
use arena_core.Finance.Types.{FinanceError}
use arena_core.Finance.Adapter.{get_escrow_balance}
use arena_core.Finance.Store.{
  FinanceStore, ReservationRow, FinanceTx, satisfies_checks, with_ledger,
}
use arena_core.Finance.Repository.{map_row}
use arena_core.Finance.Writes.{
  CreateReservationInput, new_row, takes_key_of, insert_row, put_rows, create, persisted,
  rewrite_rows,
}
use arena_core.Books.Invariant.{IsSound}
use arena_core.Backing.Escrows.{IsIndexed, Moves, nothing}
use arena_core.Backing.Held.{
  row_ids-rewrite, All-rewrite, held, held_by, row_ids, IsLinked, IsLinked-Kept,
}

-- `change m` is in the escrow of the match `m` beyond what its reservations hold.
pub record IsBackedUpTo (change : ℕ → ℤ) (s : FinanceStore) : Type 0 where
  pub sound : IsSound s.ledger
  pub indexed : IsIndexed s.ledger
  pub unique : distinct (row_ids s.reservations) ≡ true
  pub checks : all satisfies_checks s.reservations ≡ true
  pub linked : All (IsLinked s.ledger) s.reservations
  pub backed : (m : ℕ) → get_escrow_balance m s.ledger ≡ held m s.reservations +ℤ change m

-- The invariant between two transactions.
abbrev pub IsBacked : FinanceStore → Type 0
IsBacked s = IsBackedUpTo nothing s

pub IsBackedUpTo-change :
    (c d : ℕ → ℤ) (s : FinanceStore) → ((m : ℕ) → c m ≡ d m) → IsBackedUpTo c s → IsBackedUpTo d s
IsBackedUpTo-change c d s same h = record {
  sound = h.sound;
  indexed = h.indexed;
  unique = h.unique;
  checks = h.checks;
  linked = h.linked;
  backed = λ m. h.backed m ∙ ap (λ z. held m s.reservations +ℤ z) (same m);
}

-- A call of the ledger in the transaction.
pub Ensures-with_ledger :
    {E A : Type 0} {P : A → Ledger → Type 0} {Q : A → FinanceStore → Type 0}
    {r : Outcome E (A × Ledger)} (s : FinanceStore)
    → Ensures P r
    → ((a : A) (l : Ledger) → P a l → Q a (record s { ledger = l }))
    → Ensures Q (with_ledger s r)
unfolding with_ledger
Ensures-with_ledger s (committed {a = a} {s = l} p) k = committed (k a l p)
Ensures-with_ledger s rolled_back k = rolled_back

pub moved-IsBackedUpTo :
    (c d : ℕ → ℤ) (s : FinanceStore) (l : Ledger)
    → IsBackedUpTo c s
    → IsSound l
    → Moves d s.ledger l
    → IsBackedUpTo (λ m. c m +ℤ d m) (record s { ledger = l })
moved-IsBackedUpTo c d s l h sound k = record {
  sound = sound;
  indexed = k.indexed;
  unique = h.unique;
  checks = h.checks;
  linked =
      All-map (IsLinked s.ledger) (IsLinked l) s.reservations
        (λ r. IsLinked-Kept s.ledger l r k.kept) h.linked;
  backed = λ m. let one = k.escrows m in let two = h.backed m in grind (int_laws, one, two);
}

-- What `insert_row` commits.
pub record Inserted (row : ReservationRow) (s s' : FinanceStore) : Type 0 where
  pub state : s' ≡ record s { reservations = row ∷ s.reservations }
  pub new : any (takes_key_of row) s.reservations ≡ false
  pub checks : all satisfies_checks (row ∷ s.reservations) ≡ true

pub Ensures-put_rows :
    {C B : Type 0} {Q : B → FinanceStore → Type 0} (rows : List ReservationRow) (s : FinanceStore)
    (k : Unit {0} → FinanceTx C B)
    → (all satisfies_checks rows ≡ true → Ensures Q (k tt (record s { reservations = rows })))
    → Ensures Q (after (put_rows {C = C} rows s) k)
unfolding put_rows after throw_if
Ensures-put_rows rows s k h = elim (Bool-cases (all satisfies_checks rows)) [
  | inl pass ↦ rw pass (h pass)
  | inr fail ↦ rw fail rolled_back
]

Ensures-persisted :
    {A : Type 0} {Q : A → FinanceStore → Type 0} {r : Outcome FinanceError (A × FinanceStore)}
    → Ensures Q r
    → Ensures Q (persisted r)
unfolding persisted
Ensures-persisted (committed p) = committed p
Ensures-persisted rolled_back = rolled_back

pub create-Inserted :
    (input : CreateReservationInput) (s : FinanceStore)
    → Ensures (λ _ s'. Inserted (new_row input) s s') (create input s)
unfolding create insert_row map_row
create-Inserted input s = Ensures-persisted (
    Ensures-ok _ s _ (
      Ensures-throw_if _ _ s _ λ new. Ensures-ok _ s _ (
        Ensures-put_rows _ s _ λ checks.
          Ensures-throw_if _ _ _ _
            λ _. committed (record { state = refl; new = new; checks = checks }))))

new_id :
    (row : ReservationRow) (rows : List ReservationRow)
    → any (takes_key_of row) rows ≡ false
    → contains (row_ids rows) row.id ≡ false
new_id row [] h = refl
new_id row (r ∷ rows) h = ground (arith, new_id row rows)

-- A new row holds what was pending.
pub Inserted-IsBackedUpTo :
    (c : ℕ → ℤ) (row : ReservationRow) (s s' : FinanceStore)
    → Inserted row s s'
    → IsLinked s.ledger row
    → IsBackedUpTo c s
    → IsBackedUpTo (λ m. c m -ℤ held_by row m) s'
unfolding held
Inserted-IsBackedUpTo c row s s' k link h = rw k.state (record {
  sound = h.sound;
  indexed = h.indexed;
  unique = ground (arith, new_id row s.reservations k.new, h.unique);
  checks = k.checks;
  linked = (link, h.linked);
  backed = λ m. let one = h.backed m in grind (int_laws, one);
})

-- Rewritten rows hold what was pending.
pub rewritten-IsBackedUpTo :
    (c d : ℕ → ℤ) (test : ReservationRow → Bool) (f : ReservationRow → ReservationRow)
    (s : FinanceStore)
    → ((r : ReservationRow) → (f r).id ≡ r.id)
    → ((r : ReservationRow) → test r ≡ true → IsLinked s.ledger r → IsLinked s.ledger (f r))
    → all satisfies_checks (rewrite_rows test f s.reservations) ≡ true
    → ((m : ℕ) → held m (rewrite_rows test f s.reservations) +ℤ d m ≡ held m s.reservations +ℤ c m)
    → IsBackedUpTo c s
    → IsBackedUpTo d (record s { reservations = rewrite_rows test f s.reservations })
rewritten-IsBackedUpTo c d test f s same links checks sums h = record {
  sound = h.sound;
  indexed = h.indexed;
  unique = rw (row_ids-rewrite test f s.reservations same) h.unique;
  checks = checks;
  linked = All-rewrite test f (IsLinked s.ledger) s.reservations links h.linked;
  backed = λ m. h.backed m ∙ sym (sums m);
}
