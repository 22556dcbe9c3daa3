-- ===== src/Books/Invariant.antt =====
-- What holds of the ledger tables, up to entries that a transaction has still to write: each
-- account's balance is what its entries sum up to and the pending amount of the account.
use mathlib.Core.Option
use arena_core.Prelude.{
  ℕ, ◌≡◌, refl, ◌∙◌, true, not, none, some, List, [], ◌∷◌, arith, ◌==◌, if◌then◌else◌, distinct,
  Bool-cases, Option-cases, inl, inr, is_some, find, All,
}
use arena_core.Prelude.Int.{ℤ, pos, ◌+ℤ◌, ◌-ℤ◌, ◌≤ℤ◌, int_laws}
use arena_core.Prelude.Outcome.{ok}
use arena_core.Ledger.{
  Ledger, LedgerAccount, LedgerTransaction, is_user_available, account_ids, entry_account_ids,
  account_by_id, update_row, with_balance, write_balance,
}
use arena_core.Wallet.Policies.{assert_balanced}
use arena_core.Wallet.Posting.{derived_balance}

abbrev pub Pending : Type 0
Pending = ℕ → ℤ

abbrev pub settled : Pending
settled id = pos 0

-- `d` more is pending on the account `id`.
abbrev pub shift : Pending → ℕ → ℤ → Pending
shift pend id d x = if id == x then pend x +ℤ d else pend x

-- A transaction has two entries or more, debits that equal its credits, and no account twice.
abbrev pub IsProper : LedgerTransaction → Type 0
IsProper t = (assert_balanced t.entries ≡ ok tt) × (distinct (entry_account_ids t.entries) ≡ true)

pub record BooksUpTo (pend : Pending) (l : Ledger) : Type 0 where
  pub unique : distinct (account_ids l.accounts) ≡ true
  pub balances :
      (id : ℕ) (a : LedgerAccount)
      → account_by_id id l ≡ some a
      → a.current_balance ≡ derived_balance id l.transactions +ℤ pend id
  pub solvent :
      (id : ℕ) (a : LedgerAccount)
      → account_by_id id l ≡ some a
      → is_user_available a.type ≡ true
      → pos 0 ≤ℤ a.current_balance
  -- A user's account has no system key, and any other has one.
  pub owned :
      (id : ℕ) (a : LedgerAccount)
      → account_by_id id l ≡ some a
      → is_user_available a.type ≡ not (is_some a.system_key)
  -- Nothing is booked on an account that is not there.
  pub known : (id : ℕ) → account_by_id id l ≡ none → derived_balance id l.transactions ≡ pos 0
  pub proper : All IsProper l.transactions

-- The invariant between two transactions.
abbrev pub IsSound : Ledger → Type 0
IsSound l = BooksUpTo settled l

-- Lookups after a write.
find-update_row :
    (id j : ℕ) (v : ℤ) (rows : List LedgerAccount)
    → find (λ a. a.id == j) (update_row id (with_balance v) rows) ≡ (
        if id == j
        then Option.map (with_balance v) (find (λ a. a.id == j) rows)
        else find (λ a. a.id == j) rows)
unfolding update_row
find-update_row id j v [] = ground arith
find-update_row id j v (a ∷ rows) = ground (arith, find-update_row id j v rows)

pub account_by_id-write :
    (id j : ℕ) (v : ℤ) (l : Ledger)
    → account_by_id j (write_balance id v l)
      ≡ (if id == j then Option.map (with_balance v) (account_by_id j l) else account_by_id j l)
unfolding account_by_id
account_by_id-write id j v l = find-update_row id j v l.accounts

pub account_ids-update_row :
    (id : ℕ) (v : ℤ) (rows : List LedgerAccount)
    → account_ids (update_row id (with_balance v) rows) ≡ account_ids rows
unfolding update_row
account_ids-update_row id v [] = refl
account_ids-update_row id v (a ∷ rows) = ground (arith, account_ids-update_row id v rows)

-- A lookup after the write found a row that was there before, with its new balance if it is the one.
abbrev Written : ℕ → ℤ → ℕ → LedgerAccount → Ledger → Type 0
Written id v j a l =
    (b : LedgerAccount) × (account_by_id j l ≡ some b)
    × (a.type ≡ b.type)
    × (a.system_key ≡ b.system_key)
    × (a.current_balance ≡ (if id == j then v else b.current_balance))

account_by_id-Written :
    (id j : ℕ) (v : ℤ) (l : Ledger) (a : LedgerAccount)
    → account_by_id j (write_balance id v l) ≡ some a
    → Written id v j a l
account_by_id-Written id j v l a h =
    let e = account_by_id-write id j v l in
    elim (Option-cases (account_by_id j l)) [
      | inl absent ↦ absurd (ground arith)
      | inr (b, found) ↦ (b, found, ground arith, ground arith, ground arith)
    ]

pub account_by_id-write_none :
    (id j : ℕ) (v : ℤ) (l : Ledger)
    → account_by_id j (write_balance id v l) ≡ none
    → account_by_id j l ≡ none
account_by_id-write_none id j v l h =
    let e = account_by_id-write id j v l in
    elim (Option-cases (account_by_id j l)) [
      | inl absent ↦ absent
      | inr (b, found) ↦ absurd (ground arith)
    ]

Written-balances :
    (id j : ℕ) (v : ℤ) (l : Ledger) (pend : Pending) (a b : LedgerAccount)
    → account_by_id id l ≡ some a
    → Written id v j b l
    → BooksUpTo pend l
    → b.current_balance
      ≡ derived_balance j l.transactions +ℤ shift pend id (v -ℤ a.current_balance) j
Written-balances id j v l pend a b found (c, at_j, _, _, same) h = elim (Bool-cases (id == j)) [
  | inl here ↦
      let e : id ≡ j = ground arith in
      let old = h.balances j c at_j in
      let one : a ≡ c = cc in rw (here, one) (rw here at same ∙ grind int_laws)
  | inr there ↦ rw there (rw there at same ∙ h.balances j c at_j)
]

written_solvent :
    (id j : ℕ) (v : ℤ) (l : Ledger) (a b : LedgerAccount)
    → account_by_id id l ≡ some a
    → Written id v j b l
    → (is_user_available a.type ≡ true → pos 0 ≤ℤ v)
    → ((i : ℕ) (c : LedgerAccount)
        → account_by_id i l ≡ some c
        → is_user_available c.type ≡ true
        → pos 0 ≤ℤ c.current_balance)
    → is_user_available b.type ≡ true
    → pos 0 ≤ℤ b.current_balance
written_solvent id j v l a b found (c, at_j, t, _, same) nonneg solvent u =
    elim (Bool-cases (id == j)) [
      | inl here ↦
          let e : id ≡ j = ground arith in
          let one : a ≡ c = cc in rw (rw here at same) (nonneg (rw one (rw t at u)))
      | inr there ↦ rw (rw there at same) (solvent j c at_j (rw t at u))
    ]

-- Writing a balance leaves the difference from the old one pending.
pub write_balance-BooksUpTo :
    (id : ℕ) (v : ℤ) (l : Ledger) (pend : Pending) (a : LedgerAccount)
    → account_by_id id l ≡ some a
    → (is_user_available a.type ≡ true → pos 0 ≤ℤ v)
    → BooksUpTo pend l
    → BooksUpTo (shift pend id (v -ℤ a.current_balance)) (write_balance id v l)
write_balance-BooksUpTo id v l pend a found nonneg h = record {
  unique = rw (account_ids-update_row id v l.accounts) h.unique;
  balances =
      λ j b e. Written-balances id j v l pend a b found (account_by_id-Written id j v l b e) h;
  solvent = λ j b e u.
      written_solvent id j v l a b found (account_by_id-Written id j v l b e) nonneg h.solvent u;
  owned = λ j b e.
      let (c, at_j, t, k, _) = account_by_id-Written id j v l b e in rw (t, k) (h.owned j c at_j);
  known = λ j e. h.known j (account_by_id-write_none id j v l e);
  proper = h.proper;
}
