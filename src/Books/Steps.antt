-- ===== src/Books/Steps.antt =====
-- The steps that the operations on the ledger are made of, and the invariant of the books: looking
-- up or creating the accounts.
use arena_core.Prelude.{
  ℕ, ◌≡◌, refl, ap, Bool, true, false, none, some, arith, ◌==◌, if◌then◌else◌, Bool-cases, inl, inr,
  find,
}
use arena_core.Prelude.Int.{ℤ, pos, ◌+ℤ◌, ◌-ℤ◌, ◌≤ℤ◌, int_laws}
use arena_core.Prelude.Outcome.{
  Ensures-map, ok, throw, Ensures, committed, rolled_back, Ensures-after, Ensures-or_throw,
  Ensures-ok, after, Outcome,
}
use arena_core.Ledger.{
  Ledger, LedgerAccount, LedgerTransaction, LedgerDirection, is_user_available, account_by_id,
  Platform, WalletRow, Failure, has_wallet, has_key, user_account, account_by_key, user_account_row,
  system_account_row, is_credit, arena_point_issuance, arena_point_adjustment, system_issuance,
  system_adjustment, SystemKey, LedgerAccountType, key_eq,
}
use arena_core.Wallet.Policies.{Checked, WalletErrorCode, next_balance}
use arena_core.Wallet.Repository.{
  WalletTx, checked, rethrown, ensure_accounts, system_account, map_transaction,
}
use arena_core.Books.Invariant.{IsSound}
use arena_core.Books.Tables.{Extends, IsFresh, upsert_account-IsSound}
use arena_core.Books.Rows.{upsert_wallet-IsSound}

-- What a direction does to a balance.
abbrev pub moved : LedgerDirection → ℤ → ℤ
moved direction amount = if is_credit direction then amount else pos 0 -ℤ amount

pub next_balance-eq_ok :
    (current : ℤ) (direction : LedgerDirection) (amount : ℤ) (user : Bool) {v : ℤ}
    → next_balance current direction amount user ≡ ok v
    → (v ≡ current +ℤ moved direction amount) × (pos 1 ≤ℤ amount) × (user ≡ true → pos 0 ≤ℤ v)
unfolding next_balance
next_balance-eq_ok current direction amount user e =
    (grind int_laws, ground arith, λ u. ground arith)

pub Ensures-checked :
    {A B : Type 0} {Q : B → Ledger → Type 0} (c : Checked A) (l : Ledger) (k : A → WalletTx B)
    → ((a : A) → c ≡ ok a → Ensures Q (k a l))
    → Ensures Q (after (checked c l) k)
unfolding after checked
Ensures-checked (ok a) l k h = h a refl
Ensures-checked (throw e) l k h = rolled_back

pub Ensures-rethrown :
    {A : Type 0} {Q : A → Ledger → Type 0} {r : Outcome (Failure WalletErrorCode) (A × Ledger)}
    → Ensures Q r
    → Ensures Q (rethrown r)
unfolding rethrown
Ensures-rethrown (committed p) = committed p
Ensures-rethrown rolled_back = rolled_back

pub map_transaction-reads :
    (t : LedgerTransaction) (l : Ledger) → Ensures (λ _ s. s ≡ l) (map_transaction t l)
unfolding map_transaction
map_transaction-reads t l = Ensures-ok _ l _ (
    Ensures-or_throw _ _ l _
      λ e _. Ensures-ok _ l _ (Ensures-or_throw _ _ l _ λ u _. Ensures-ok _ l _ (committed refl)))

pub has_wallet_row : (w n : ℕ) → IsFresh (has_wallet w) n (user_account_row w n)
has_wallet_row w n = ground arith

pub has_key_row :
    (kind : LedgerAccountType) (key : SystemKey) (n : ℕ)
    → is_user_available kind ≡ false
    → key_eq key key ≡ true
    → IsFresh (has_key key) n (system_account_row kind key n)
has_key_row kind key n not_user same = ground arith

pub user_account-find : (w : ℕ) (s : Ledger) → user_account w s ≡ find (has_wallet w) s.accounts
unfolding user_account
user_account-find w s = refl

pub account_by_key-find :
    (key : SystemKey) (s : Ledger) → account_by_key key s ≡ find (has_key key) s.accounts
unfolding account_by_key
account_by_key-find key s = refl

-- `ensureAccounts` returns the wallet's account.
pub ensure_accounts-IsSound :
    (g : Platform) (user now : ℕ) (l : Ledger)
    → IsSound l
    → Ensures
        (λ (p : WalletRow × LedgerAccount) s.
          IsSound s × (account_by_id p.1.id s ≡ some p.1) × (has_wallet p.0.id p.1 ≡ true))
        (ensure_accounts g user now l)
unfolding ensure_accounts
ensure_accounts-IsSound g user now l h = Ensures-ok _ l _ (
    Ensures-or_throw _ _ l _ λ u _. Ensures-after (upsert_wallet-IsSound g user now l h) λ w s k.
      Ensures-after
        (upsert_account-IsSound (has_wallet w.id) g _ _ s (user_account-find w.id)
          (has_wallet_row w.id) k)
        λ a s' r. committed (r.0, r.1, r.2))

pub keyed_is_system :
    (key : SystemKey) (a : LedgerAccount) (s : Ledger)
    → IsSound s
    → account_by_id a.id s ≡ some a
    → has_key key a ≡ true
    → is_user_available a.type ≡ false
keyed_is_system key a s h e k = ground (arith, h.owned a.id a e)

-- `systemAccount` returns an account that is no user's.
pub system_account-IsSound :
    (g : Platform) (for_issuance : Bool) (l : Ledger)
    → IsSound l
    → Ensures
        (λ (a : LedgerAccount) s.
          IsSound s
          × (account_by_id a.id s ≡ some a)
          × (is_user_available a.type ≡ false)
          × Extends l s)
        (system_account g for_issuance l)
unfolding system_account
system_account-IsSound g true l h =
    Ensures-map
      (upsert_account-IsSound (has_key arena_point_issuance) g _ _ l
        (account_by_key-find arena_point_issuance)
        (λ n. has_key_row system_issuance arena_point_issuance n refl refl) h)
      λ a s r. (r.0, r.1, keyed_is_system arena_point_issuance a s r.0 r.1 r.2, r.3)
system_account-IsSound g false l h =
    Ensures-map
      (upsert_account-IsSound (has_key arena_point_adjustment) g _ _ l
        (account_by_key-find arena_point_adjustment)
        (λ n. has_key_row system_adjustment arena_point_adjustment n refl refl) h)
      λ a s r. (r.0, r.1, keyed_is_system arena_point_adjustment a s r.0 r.1 r.2, r.3)

pub distinct_accounts :
    (u v : LedgerAccount) (s : Ledger)
    → account_by_id u.id s ≡ some u
    → account_by_id v.id s ≡ some v
    → is_user_available u.type ≡ true
    → is_user_available v.type ≡ false
    → (u.id == v.id) ≡ false
distinct_accounts u v s at_u at_v user system = elim (Bool-cases (u.id == v.id)) [
  | inl same ↦
      let e : u.id ≡ v.id = ground arith in
      let one : u ≡ v = cc in cc (ap (λ (a : LedgerAccount). is_user_available a.type) one)
  | inr apart ↦ apart
]

pub absent_elsewhere :
    (a : LedgerAccount) (x : ℕ) (s : Ledger)
    → account_by_id x s ≡ none
    → account_by_id a.id s ≡ some a
    → (a.id == x) ≡ false
absent_elsewhere a x s gone found = elim (Bool-cases (a.id == x)) [
  | inl same ↦ let e : a.id ≡ x = ground arith in cc
  | inr other ↦ other
]
