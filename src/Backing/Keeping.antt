-- ===== src/Backing/Keeping.antt =====
-- The queries on the ledger tables (Ledger/Queries), under the CHECK constraints: no row of a match is
-- written.
use arena_core.Prelude.{
  ℕ, ◌≡◌, refl, Bool, true, false, not, ◌&&◌, Option, none, some, List, [], ◌∷◌, all, map,
  Option-cases, arith, Bool-cases, inl, inr,
}
use arena_core.Prelude.Int.{ℤ}
use arena_core.Prelude.Outcome.{
  ok, throw, Tx, after, Ensures, committed, rolled_back, Ensures-after, Ensures-map, or_throw,
  throw_if, gets, pure, modify, ◌>>=◌, ◌>>◌,
}
use arena_core.Ledger.{
  Ledger, LedgerAccount, LedgerTransaction, LedgerAccountType, user_available, system_issuance,
  system_adjustment, match_escrow, write_balance, in_bigint, account_ids, account_by_id,
  wallet_of_user, breaks_unique_key, Failure, Platform, WalletAuditEvent, update_row, with_balance,
  account_checks, owner_type_check, transaction_checks, reference_check, set_balance,
  update_balance_if, balance_of, upsert_account, upsert_wallet, create_transaction,
  create_audit_event,
}
use arena_core.Wallet.Policies.{Checked}
use arena_core.Wallet.Repository.{checked, map_transaction}
use arena_core.Books.Steps.{map_transaction-reads}

abbrev pub is_escrow : LedgerAccountType → Bool
is_escrow match_escrow = true
is_escrow _ = false

-- No account is an escrow, and no transaction refers to a match.
pub record HasNoMatch (l : Ledger) : Type 0 where
  pub accounts : all (λ (a : LedgerAccount). not (is_escrow a.type)) l.accounts ≡ true
  pub transactions :
      all (λ (t : LedgerTransaction). reference_check t.reference_type) l.transactions ≡ true

-- A transaction that keeps it.
abbrev pub Keeps : {E A : Type 0} → Tx Ledger E A → Type 0
Keeps m = (l : Ledger) → HasNoMatch l → Ensures (λ _ s. HasNoMatch s) (m l)

module _ {E : Type 0} where
  pub next-Keeps :
      {A B : Type 0} (m : Tx Ledger E A) (k : A → Tx Ledger E B)
      → Keeps m
      → ((a : A) → Keeps (k a))
      → Keeps (m >>= k)
  next-Keeps m k h h' l p = Ensures-after (h l p) λ a s q. h' a s q

  pub then-Keeps :
      {A B : Type 0} (m : Tx Ledger E A) (k : Tx Ledger E B) → Keeps m → Keeps k → Keeps (m >> k)
  then-Keeps m k h h' l p = Ensures-after (h l p) λ a s q. h' s q

  pub pure-Keeps : {A : Type 0} (a : A) → Keeps {E = E} (pure a)
  pure-Keeps a l p = committed p

  pub gets-Keeps : {A : Type 0} (f : Ledger → A) → Keeps {E = E} (gets f)
  gets-Keeps f l p = committed p

  pub throw_if-Keeps : (b : Bool) (e : E) → Keeps (throw_if b e)
  unfolding throw_if
  throw_if-Keeps true e l p = rolled_back
  throw_if-Keeps false e l p = committed p

  pub or_throw-Keeps : {A : Type 0} (o : Option A) (e : E) → Keeps (or_throw o e)
  unfolding or_throw
  or_throw-Keeps none e l p = rolled_back
  or_throw-Keeps (some a) e l p = committed p

pub checked-Keeps : {A : Type 0} (c : Checked A) → Keeps (checked c)
unfolding checked
checked-Keeps (ok a) l p = committed p
checked-Keeps (throw e) l p = rolled_back

update_row-escrow :
    (id : ℕ) (v : ℤ) (rows : List LedgerAccount)
    → all (λ (a : LedgerAccount). not (is_escrow a.type)) rows ≡ true
    → all (λ (a : LedgerAccount). not (is_escrow a.type)) (update_row id (with_balance v) rows)
      ≡ true
unfolding update_row
update_row-escrow id v [] h = refl
update_row-escrow id v (a ∷ rows) h = ground (arith, update_row-escrow id v rows)

checked_no_escrow : (a : LedgerAccount) → account_checks a ≡ true → not (is_escrow a.type) ≡ true
unfolding account_checks owner_type_check
checked_no_escrow a h =
    elim a.type
        as (λ k.
          (in_bigint a.current_balance
              && owner_type_check k a.wallet_id a.system_key a.current_balance)
            ≡ true
          → not (is_escrow k) ≡ true) [
            | user_available ↦ λ _. refl
            | system_issuance ↦ λ _. refl
            | system_adjustment ↦ λ _. refl
            | match_escrow ↦ λ e. ground arith
          ]
      h

checked_reference :
    (users : List ℕ) (t : LedgerTransaction)
    → transaction_checks users t ≡ true
    → reference_check t.reference_type ≡ true
unfolding transaction_checks
checked_reference users t h = ground arith

module _ {C : Type 0} where
  write-Keeps : (id : ℕ) (v : ℤ) → Keeps {E = Failure C} (modify (write_balance id v))
  write-Keeps id v l p = committed (record {
    accounts = update_row-escrow id v l.accounts p.accounts;
    transactions = p.transactions;
  })

  pub set_balance-Keeps : (id : ℕ) (v : ℤ) → Keeps (set_balance {C = C} id v)
  unfolding set_balance
  set_balance-Keeps id v = next-Keeps _ _ (gets-Keeps _) λ row.
      next-Keeps _ _ (or_throw-Keeps row _)
        λ found. then-Keeps _ _ (throw_if-Keeps _ _) (write-Keeps id v)

  pub update_balance_if-Keeps :
      (id : ℕ) (test : LedgerAccount → Bool) (value : LedgerAccount → ℤ)
      → Keeps (update_balance_if {C = C} id test value)
  unfolding update_balance_if after
  update_balance_if-Keeps id test value l p = elim (Option-cases (account_by_id id l)) [
    | inl missing ↦ rw missing (committed p)
    | inr (a, found) ↦ elim (Bool-cases (test a)) [
      | inl passes ↦
          rw (found, passes)
            (then-Keeps _ _ (then-Keeps _ _ (throw_if-Keeps _ _) (write-Keeps id (value a)))
              (pure-Keeps 1) l p)
      | inr fails ↦ rw (found, fails) (committed p)
    ]
  ]

  pub balance_of-Keeps : (id : ℕ) → Keeps (balance_of {C = C} id)
  unfolding balance_of
  balance_of-Keeps id =
      next-Keeps _ _ (gets-Keeps _)
        λ row. next-Keeps _ _ (or_throw-Keeps row _) λ found. pure-Keeps _

  pub upsert_account-Keeps :
      (g : Platform) (query : Ledger → Option LedgerAccount) (fresh : ℕ → LedgerAccount)
      → Keeps (upsert_account {C = C} g query fresh)
  unfolding upsert_account
  upsert_account-Keeps g query fresh l p = elim (Option-cases (query l)) [
    | inr (a, found) ↦ rw (upsert_account, found) (committed p)
    | inl missing ↦
        let a = fresh (g.draw (account_ids l.accounts)) in
        elim (Bool-cases (account_checks a)) [
          | inl pass ↦
              rw (upsert_account, missing, pass)
                (committed (record {
                  accounts = ground (arith, p.accounts, checked_no_escrow a pass);
                  transactions = p.transactions;
                }))
          | inr fail ↦ rw (upsert_account, missing, fail) rolled_back
        ]
  ]

  pub upsert_wallet-Keeps : (g : Platform) (user now : ℕ) → Keeps (upsert_wallet {C = C} g user now)
  unfolding upsert_wallet
  upsert_wallet-Keeps g user now l p = elim (Option-cases (wallet_of_user user l)) [
    | inr (w, found) ↦ rw (upsert_wallet, found) (committed p)
    | inl missing ↦
        rw (upsert_wallet, missing)
          (committed (record { accounts = p.accounts; transactions = p.transactions }))
  ]

  pub create_transaction-Keeps :
      (g : Platform) (row : ℕ → LedgerTransaction) → Keeps (create_transaction {C = C} g row)
  unfolding create_transaction
  create_transaction-Keeps g row l p =
      let t = row (g.draw (map (λ (r : LedgerTransaction). r.id) l.transactions)) in
      elim (Bool-cases (transaction_checks l.users t)) [
        | inr fail ↦ rw fail rolled_back
        | inl pass ↦ elim (Bool-cases (breaks_unique_key t l)) [
          | inl breaks ↦ rw (pass, breaks) rolled_back
          | inr unique ↦
              rw (pass, unique)
                (committed (record {
                  accounts = p.accounts;
                  transactions = ground (arith, checked_reference l.users t pass, p.transactions);
                }))
        ]
      ]

  pub create_audit_event-Keeps : (e : WalletAuditEvent) → Keeps (create_audit_event {C = C} e)
  unfolding create_audit_event
  create_audit_event-Keeps e l p =
      committed (record { accounts = p.accounts; transactions = p.transactions })

pub map_transaction-Keeps : (t : LedgerTransaction) → Keeps (map_transaction t)
map_transaction-Keeps t l p = Ensures-map (map_transaction-reads t l) λ _ s same. rw same p
