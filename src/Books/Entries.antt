-- ===== src/Books/Entries.antt =====
-- The entries of a reversal (`reverse` in
-- packages/wallet/src/infrastructure/prisma-wallet-repository.ts): they mirror the original's, and
-- writing their balances leaves exactly them pending.
use arena_core.Prelude.{
  ℕ, ◌≡◌, refl, ap, ◌∙◌, true, false, ◌||◌, some, List, [], ◌∷◌, arith, leb, ◌==◌, length, contains,
  distinct, Bool-cases, inl, inr, All,
}
use arena_core.Prelude.Int.{ℤ, pos, ◌+ℤ◌, ◌≤ℤ◌}
use arena_core.Prelude.Outcome.{Ensures, committed, Ensures-after, Ensures-or_throw, Ensures-ok}
use arena_core.Ledger.{
  Ledger, LedgerAccount, LedgerEntry, is_user_available, entry_account_ids, account_by_id, opposite,
}
use arena_core.Wallet.Policies.{side_total}
use arena_core.Wallet.Posting.{entry, signed, reversed_entries}
use arena_core.Wallet.Repository.{insert_by_account, sort_by_account}
use arena_core.Books.Steps.{next_balance-eq_ok, Ensures-checked}

-- An entry whose balance after is that of its account, moved by the entry.
abbrev pub CanWrite : Ledger → LedgerEntry → Type 0
CanWrite l e =
    (a : LedgerAccount) × (account_by_id e.account_id l ≡ some a)
    × (e.balance_after ≡ a.current_balance +ℤ signed e)
    × (is_user_available a.type ≡ true → pos 0 ≤ℤ e.balance_after)

-- The entries `fs` undo the entries `es`.
abbrev pub Mirrors : List LedgerEntry → List LedgerEntry → Type 0
Mirrors es fs =
    (side_total true fs ≡ side_total false es)
    × (side_total false fs ≡ side_total true es)
    × (length fs ≡ length es)
    × (entry_account_ids fs ≡ entry_account_ids es)

Mirrors-cons :
    (e : LedgerEntry) (after_e : ℤ) (es fs : List LedgerEntry)
    → Mirrors es fs
    → Mirrors (e ∷ es) (entry e.account_id (opposite e.direction) e.amount after_e ∷ fs)
unfolding side_total entry
Mirrors-cons e after_e es fs h =
    (ground arith, ground arith, ground arith, ap (λ r. e.account_id ∷ r) h.3)

pub reversed_entries-Mirrors :
    (es : List LedgerEntry) (l : Ledger)
    → Ensures (λ fs s. (s ≡ l) × All (CanWrite l) fs × Mirrors es fs) (reversed_entries es l)
unfolding reversed_entries side_total entry
reversed_entries-Mirrors [] l = committed (refl, tt, (refl, refl, refl, refl))
reversed_entries-Mirrors (e ∷ es) l = Ensures-ok _ l _ (
    Ensures-or_throw _ _ l _ λ a found. Ensures-checked _ l _ λ v ev.
      Ensures-after (reversed_entries-Mirrors es l) λ fs s r. committed (
        r.0,
        (
          (
            a,
            found,
            (next_balance-eq_ok a.current_balance (opposite e.direction) e.amount
                (is_user_available a.type) ev).0,
            (next_balance-eq_ok a.current_balance (opposite e.direction) e.amount
                (is_user_available a.type) ev).2,
          ),
          r.1,
        ),
        Mirrors-cons e v es fs r.2,
      ))

-- Sorting keeps what holds of every entry, and the distinctness of the accounts.
All-insert :
    (P : LedgerEntry → Type 0) (e : LedgerEntry) (es : List LedgerEntry)
    → P e
    → All P es
    → All P (insert_by_account e es)
unfolding insert_by_account
All-insert P e [] p h = (p, tt)
All-insert P e (f ∷ es) p h = elim (Bool-cases (leb e.account_id f.account_id)) [
  | inl first ↦ rw first (p, h)
  | inr later ↦ rw later (h.0, All-insert P e es p h.1)
]

pub All-sort :
    (P : LedgerEntry → Type 0) (es : List LedgerEntry) → All P es → All P (sort_by_account es)
unfolding sort_by_account
All-sort P [] h = tt
All-sort P (e ∷ es) h = All-insert P e (sort_by_account es) h.0 (All-sort P es h.1)

contains-insert :
    (x : ℕ) (e : LedgerEntry) (es : List LedgerEntry)
    → contains (entry_account_ids (insert_by_account e es)) x
      ≡ contains (entry_account_ids (e ∷ es)) x
unfolding insert_by_account
contains-insert x e [] = refl
contains-insert x e (f ∷ es) = ground (arith, contains-insert x e es)

contains-sort :
    (x : ℕ) (es : List LedgerEntry)
    → contains (entry_account_ids (sort_by_account es)) x ≡ contains (entry_account_ids es) x
unfolding sort_by_account
contains-sort x [] = refl
contains-sort x (e ∷ es) =
    contains-insert x e (sort_by_account es) ∙ ap (λ b. e.account_id == x || b) (contains-sort x es)

distinct-insert :
    (e : LedgerEntry) (es : List LedgerEntry)
    → distinct (entry_account_ids (insert_by_account e es)) ≡ distinct (entry_account_ids (e ∷ es))
unfolding insert_by_account
distinct-insert e [] = refl
distinct-insert e (f ∷ es) = ground (arith, distinct-insert e es, contains-insert f.account_id e es)

pub distinct-sort :
    (es : List LedgerEntry)
    → distinct (entry_account_ids (sort_by_account es)) ≡ distinct (entry_account_ids es)
unfolding sort_by_account
distinct-sort [] = refl
distinct-sort (e ∷ es) =
    distinct-insert e (sort_by_account es)
    ∙ ground (arith, contains-sort e.account_id es, distinct-sort es)
