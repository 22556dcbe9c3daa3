-- ===== src/Books/Tables.antt =====
-- Each query that writes, and the invariant: new accounts, written balances, new transactions.
use arena_core.Prelude.{
  ℕ, ◌≡◌, ◌⊎◌, refl, sym, ap, ◌∙◌, Bool, true, false, not, Option, none, some, List, [], ◌∷◌, arith,
  ◌==◌, contains, distinct, Bool-cases, Option-cases, inl, inr, is_some, find,
}
use arena_core.Prelude.Int.{pos, ◌+ℤ◌, int_laws}
use arena_core.Prelude.Outcome.{Ensures, committed, rolled_back}
use arena_core.Ledger.{
  Ledger, LedgerAccount, is_user_available, account_ids, account_by_id, Platform, upsert_account,
  account_checks, WalletRow, WalletAuditEvent,
}
use arena_core.Wallet.Posting.{derived_balance}
use arena_core.Books.Invariant.{Pending, BooksUpTo, IsSound}

-- Wallets and audit events are not part of the books.
pub BooksUpTo-other_tables :
    (pend : Pending) (l : Ledger) (ws : List WalletRow) (events : List WalletAuditEvent)
    → BooksUpTo pend l
    → BooksUpTo pend (record l { wallets = ws; audit_events = events })
unfolding account_by_id
BooksUpTo-other_tables pend l ws events h = record {
  unique = h.unique;
  balances = h.balances;
  solvent = h.solvent;
  owned = h.owned;
  known = h.known;
  proper = h.proper;
}

pub BooksUpTo-pending :
    (p q : Pending) (l : Ledger) → ((x : ℕ) → p x ≡ q x) → BooksUpTo p l → BooksUpTo q l
BooksUpTo-pending p q l same h = record {
  unique = h.unique;
  balances =
      λ id a e. h.balances id a e ∙ ap (λ z. derived_balance id l.transactions +ℤ z) (same id);
  solvent = h.solvent;
  owned = h.owned;
  known = h.known;
  proper = h.proper;
}

-- Identifiers are unique, so a row that a query finds is the one of its identifier.
contains-found :
    (t : LedgerAccount → Bool) (rows : List LedgerAccount) (a : LedgerAccount)
    → find t rows ≡ some a
    → contains (account_ids rows) a.id ≡ true
contains-found t [] a e = cc
contains-found t (r ∷ rows) a e = ground (arith, contains-found t rows a)

pub find-id :
    (t : LedgerAccount → Bool) (rows : List LedgerAccount) (a : LedgerAccount)
    → distinct (account_ids rows) ≡ true
    → find t rows ≡ some a
    → find (λ r. r.id == a.id) rows ≡ some a
find-id t [] a u e = cc
find-id t (r ∷ rows) a u e = ground (arith, contains-found t rows a, find-id t rows a)

pub find-absent :
    (id : ℕ) (rows : List LedgerAccount)
    → contains (account_ids rows) id ≡ false
    → find (λ r. r.id == id) rows ≡ none
find-absent id [] h = refl
find-absent id (r ∷ rows) h = ground (arith, find-absent id rows)

pub find_passes :
    (t : LedgerAccount → Bool) (rows : List LedgerAccount) (a : LedgerAccount)
    → find t rows ≡ some a
    → t a ≡ true
find_passes t [] a e = cc
find_passes t (r ∷ rows) a e = ground (arith, find_passes t rows a)

-- `l'` has every account row of `l`.
abbrev pub Extends : Ledger → Ledger → Type 0
Extends l l' =
    (j : ℕ) (b : LedgerAccount) → account_by_id j l ≡ some b → account_by_id j l' ≡ some b

-- A row that `upsert` may create.
pub record IsFresh (t : LedgerAccount → Bool) (n : ℕ) (a : LedgerAccount) : Type 0 where
  pub id : a.id ≡ n
  pub empty : a.current_balance ≡ pos 0
  pub owned : is_user_available a.type ≡ not (is_some a.system_key)
  pub passes : t a ≡ true

module _ (t : LedgerAccount → Bool) where
  -- What `upsert` returns: a row of the table that passes the query's test.
  abbrev pub Upserted : Ledger → LedgerAccount → Ledger → Type 0
  Upserted l a l' = IsSound l' × (account_by_id a.id l' ≡ some a) × (t a ≡ true) × Extends l l'

  found_after_adding :
      (l : Ledger) (a : LedgerAccount) (j : ℕ) (b : LedgerAccount)
      → account_by_id j (record l { accounts = a ∷ l.accounts }) ≡ some b
      → ((a.id ≡ j) × (a ≡ b)) ⊎ (account_by_id j l ≡ some b)
  unfolding account_by_id
  found_after_adding l a j b e = elim (Bool-cases (a.id == j)) [
    | inl here ↦ inl (ground arith, ground arith)
    | inr there ↦ inr (rw there at e)
  ]

  add_account-IsSound :
      (l : Ledger) (n : ℕ) (a : LedgerAccount)
      → contains (account_ids l.accounts) n ≡ false
      → IsFresh t n a
      → IsSound l
      → Upserted l a (record l { accounts = a ∷ l.accounts })
  unfolding account_by_id
  add_account-IsSound l n a new f h =
      let absent = find-absent n l.accounts new in
      (
        record {
          unique = ground arith;
          balances = λ j b e. elim (found_after_adding l a j b e) [
            | inl (at_a, same) ↦
                rw (← same, f.empty)
                  (sym (rw (h.known j (rw (← at_a, f.id) absent)) (omega int_laws)))
            | inr old ↦ h.balances j b old
          ];
          solvent = λ j b e u. elim (found_after_adding l a j b e) [
            | inl (at_a, same) ↦ rw (← same, f.empty) (omega arith)
            | inr old ↦ h.solvent j b old u
          ];
          owned = λ j b e. elim (found_after_adding l a j b e) [
            | inl (at_a, same) ↦ rw (← same) f.owned
            | inr old ↦ h.owned j b old
          ];
          known = λ j e. h.known j (ground arith);
          proper = h.proper;
        },
        ground arith,
        f.passes,
        λ j b e. ground (arith, find-absent j l.accounts),
      )

  found_is_Upserted :
      (l : Ledger) (a : LedgerAccount) → find t l.accounts ≡ some a → IsSound l → Upserted l a l
  unfolding account_by_id
  found_is_Upserted l a e h =
      (h, find-id t l.accounts a h.unique e, find_passes t l.accounts a e, λ j b k. k)

  pub upsert_account-IsSound :
      {C : Type 0} (g : Platform) (query : Ledger → Option LedgerAccount)
      (fresh : ℕ → LedgerAccount) (l : Ledger)
      → ((s : Ledger) → query s ≡ find t s.accounts)
      → ((n : ℕ) → IsFresh t n (fresh n))
      → IsSound l
      → Ensures (Upserted l) (upsert_account {C = C} g query fresh l)
  unfolding upsert_account
  upsert_account-IsSound g query fresh l q f h = elim (Option-cases (query l)) [
    | inl missing ↦
        let n = g.draw (account_ids l.accounts) in
        elim (Bool-cases (account_checks (fresh n))) [
          | inl valid ↦
              rw (missing, upsert_account, valid)
                (committed (
                  add_account-IsSound l n (fresh n) (g.draw_fresh (account_ids l.accounts)) (f n)
                    h))
          | inr invalid ↦ rw (missing, upsert_account, invalid) rolled_back
        ]
    | inr (a, present) ↦
        rw (present, upsert_account) (committed (found_is_Upserted l a (sym (q l) ∙ present) h))
  ]
