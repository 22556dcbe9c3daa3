-- ===== src/Books/Rows.antt =====
-- The queries that write one row, and the invariant of the books.
use arena_core.Prelude.{
  ℕ, ◌≡◌, refl, ◌∙◌, true, false, Option, none, some, List, ◌∷◌, map, arith, ◌==◌, distinct, not,
  Bool-cases, Option-cases, inl, inr,
}
use arena_core.Prelude.Int.{ℤ, pos, ◌-ℤ◌, int_laws}
use arena_core.Prelude.Guarded.{Guarded, passed, Guarded-throw_if}
use arena_core.Prelude.Outcome.{after, or_throw, throw_if, ok, Ensures, committed, rolled_back}
use arena_core.Ledger.{
  account_by_key, SystemKey, has_key, has_wallet, Ledger, LedgerAccount, LedgerEntry,
  LedgerTransaction, entry_account_ids, account_by_id, write_balance, Platform, upsert_account,
  upsert_wallet, create_transaction, breaks_unique_key, set_balance, WalletRow, wallet_of_user,
  user_account, account_checks, transaction_checks, check_violation, with_balance,
}
use arena_core.Wallet.Policies.{assert_balanced}
use arena_core.Wallet.Posting.{entries_balance, derived_balance}
use arena_core.Books.Invariant.{Pending, BooksUpTo, IsSound, settled}
use arena_core.Books.Tables.{BooksUpTo-other_tables, find-id, find_passes}

-- The account of a wallet is the one that its identifier finds.
pub user_account-at_id :
    (w : ℕ) (l : Ledger) (a : LedgerAccount)
    → IsSound l
    → user_account w l ≡ some a
    → account_by_id a.id l ≡ some a
unfolding account_by_id user_account
user_account-at_id w l a h e = find-id _ l.accounts a h.unique e

pub upsert_account-ok :
    {C : Type 0} (g : Platform) (query : Ledger → Option LedgerAccount) (fresh : ℕ → LedgerAccount)
    (l : Ledger) (a : LedgerAccount)
    → query l ≡ some a
    → upsert_account {C = C} g query fresh l ≡ ok (a, l)
unfolding upsert_account
upsert_account-ok g query fresh l a e = rw (upsert_account, e) refl

pub upsert_wallet-ok :
    {C : Type 0} (g : Platform) (user now : ℕ) (l : Ledger) (w : WalletRow)
    → wallet_of_user user l ≡ some w
    → upsert_wallet {C = C} g user now l ≡ ok (w, l)
unfolding upsert_wallet
upsert_wallet-ok g user now l w e = rw (upsert_wallet, e) refl

pub account_by_key-at_id :
    (key : SystemKey) (l : Ledger) (a : LedgerAccount)
    → IsSound l
    → account_by_key key l ≡ some a
    → account_by_id a.id l ≡ some a
unfolding account_by_id account_by_key
account_by_key-at_id key l a h e = find-id _ l.accounts a h.unique e

pub found_has_key :
    (key : SystemKey) (l : Ledger) (a : LedgerAccount)
    → account_by_key key l ≡ some a
    → has_key key a ≡ true
unfolding account_by_key
found_has_key key l a e = find_passes _ l.accounts a e

pub found_has_wallet :
    (w : ℕ) (l : Ledger) (a : LedgerAccount) → user_account w l ≡ some a → has_wallet w a ≡ true
unfolding user_account
found_has_wallet w l a e = find_passes _ l.accounts a e

pub account_by_id-id :
    (id : ℕ) (l : Ledger) (a : LedgerAccount) → account_by_id id l ≡ some a → a.id ≡ id
unfolding account_by_id
account_by_id-id id l a e = let same = find_passes (λ r. r.id == id) l.accounts a e in ground arith

-- `upsert` of a wallet leaves the accounts alone.
pub upsert_wallet-IsSound :
    {C : Type 0} (g : Platform) (user now : ℕ) (l : Ledger)
    → IsSound l
    → Ensures (λ (w : WalletRow) (s : Ledger). IsSound s) (upsert_wallet {C = C} g user now l)
unfolding upsert_wallet
upsert_wallet-IsSound g user now l h = elim (Option-cases (wallet_of_user user l)) [
  | inl missing ↦
      rw (missing, upsert_wallet) (committed (BooksUpTo-other_tables settled l _ l.audit_events h))
  | inr (w, present) ↦ rw (present, upsert_wallet) (committed h)
]

module _ {C : Type 0} (id : ℕ) (v : ℤ) (l : Ledger) (a : LedgerAccount)
    (found : account_by_id id l ≡ some a) where
  pub set_balance-ok :
      account_checks (with_balance v a) ≡ true
      → set_balance {C = C} id v l ≡ ok (tt, write_balance id v l)
  unfolding set_balance after or_throw throw_if
  set_balance-ok valid = rw (found, valid) refl

  pub set_balance-Guarded : Guarded (ok (tt, write_balance id v l)) (set_balance {C = C} id v l)
  unfolding set_balance after or_throw
  set_balance-Guarded =
      rw found
        (Guarded-throw_if (not (account_checks (with_balance v a))) check_violation l _ passed)

-- A new transaction turns its entries from pending amounts into booked ones.
abbrev pub Booked : Pending → Ledger → List LedgerEntry → LedgerTransaction → Ledger → Type 0
Booked pend l es t l' = BooksUpTo (λ x. pend x -ℤ entries_balance x es) l' × (t.entries ≡ es)

distinct_of_fits :
    (t : LedgerTransaction) (l : Ledger)
    → breaks_unique_key t l ≡ false
    → distinct (entry_account_ids t.entries) ≡ true
unfolding breaks_unique_key
distinct_of_fits t l h = ground arith

add_transaction :
    (t : LedgerTransaction) (pend : Pending) (es : List LedgerEntry) (l : Ledger)
    → t.entries ≡ es
    → assert_balanced es ≡ ok tt
    → distinct (entry_account_ids t.entries) ≡ true
    → ((id : ℕ) → account_by_id id l ≡ none → entries_balance id es ≡ pos 0)
    → BooksUpTo pend l
    → BooksUpTo
        (λ x. pend x -ℤ entries_balance x es)
        (record l { transactions = t ∷ l.transactions })
unfolding account_by_id derived_balance
add_transaction t pend es l e balanced apart on_known h = record {
  unique = h.unique;
  balances = λ id a k. rw e (h.balances id a k ∙ omega int_laws);
  solvent = h.solvent;
  owned = h.owned;
  known = λ id k. rw (e, on_known id k, h.known id k) (omega int_laws);
  proper = ((rw e balanced, apart), h.proper);
}

pub create_transaction-Booked :
    {C : Type 0} (g : Platform) (row : ℕ → LedgerTransaction) (pend : Pending)
    (es : List LedgerEntry) (l : Ledger)
    → ((id : ℕ) → (row id).entries ≡ es)
    → assert_balanced es ≡ ok tt
    → ((id : ℕ) → account_by_id id l ≡ none → entries_balance id es ≡ pos 0)
    → BooksUpTo pend l
    → Ensures (Booked pend l es) (create_transaction {C = C} g row l)
unfolding create_transaction
create_transaction-Booked g row pend es l same balanced on_known h =
    let t = row (g.draw (map (λ (r : LedgerTransaction). r.id) l.transactions)) in
    let e : t.entries ≡ es = same (g.draw (map (λ (r : LedgerTransaction). r.id) l.transactions)) in
    elim (Bool-cases (transaction_checks l.users t)) [
      | inl valid ↦ elim (Bool-cases (breaks_unique_key t l)) [
        | inl breaks ↦ rw (valid, breaks) rolled_back
        | inr fits ↦
            rw (valid, fits)
              (committed
                (add_transaction t pend es l e balanced (distinct_of_fits t l fits) on_known h, e))
      ]
      | inr invalid ↦ rw invalid rolled_back
    ]
