-- ===== src/Backing/Accounts.antt =====
-- Creating accounts, wallets and transactions moves the balance of no escrow account.
use arena_core.Prelude.{
  ℕ, ◌≡◌, refl, ap, ◌∙◌, true, false, Option, none, some, ◌∷◌, arith, ◌==◌, if◌then◌else◌,
  Bool-cases, Option-cases, inl, inr, contains, map,
}
use arena_core.Prelude.Int.{pos, ◌+ℤ◌, int_laws}
use arena_core.Prelude.Outcome.{Ensures, committed, rolled_back}
use arena_core.Ledger.{
  Ledger, LedgerAccount, LedgerAccountType, LedgerTransaction, SystemKey, arena_point_issuance,
  arena_point_adjustment, match_escrow_key, account_ids, account_by_id, account_by_key, has_key,
  key_eq, Platform, upsert_account, account_checks, transaction_checks, upsert_wallet,
  create_transaction, breaks_unique_key, user_account, user_account_row, system_account_row,
  wallet_of_user,
}
use arena_core.Finance.Adapter.{get_escrow_balance}
use arena_core.Books.Tables.{find-absent}
use arena_core.Backing.Escrows.{
  IsIndexed, Moves, Moves-same_accounts, nothing, escrow_missing, escrow_found,
}

-- A new account with a balance of 0 moves no escrow, if its key, if any, is new.
module _ (l : Ledger) (a : LedgerAccount) (h : IsIndexed l) (empty : a.current_balance ≡ pos 0)
    (fresh : contains (account_ids l.accounts) a.id ≡ false)
    (unkeyed : (key : SystemKey) → has_key key a ≡ true → account_by_key key l ≡ none) where
  abbrev added : Ledger
  added = record l { accounts = a ∷ l.accounts }

  added_finds :
      (key : SystemKey)
      → account_by_key key added ≡ (if has_key key a then some a else account_by_key key l)
  unfolding account_by_key
  added_finds key = refl

  added_keyed :
      (key : SystemKey) (id : ℕ) (b : LedgerAccount)
      → account_by_id id added ≡ some b
      → has_key key b ≡ true
      → account_by_key key added ≡ some b
  unfolding account_by_id
  added_keyed key id b e k = elim (Bool-cases (a.id == id)) [
    | inl here ↦
        let same : some a ≡ some b = rw here at e in
        let one : a ≡ b = cc same in
        let mine : has_key key a ≡ true = rw one k in rw (added_finds key, mine) same
    | inr there ↦
        let found = h.keyed key id b (rw there at e) k in
        elim (Bool-cases (has_key key a)) [
          | inl mine ↦ absurd (ground (arith, unkeyed key mine, found))
          | inr other ↦ rw (added_finds key, other) found
        ]
  ]

  added_escrow : (m : ℕ) → get_escrow_balance m added ≡ get_escrow_balance m l +ℤ nothing m
  added_escrow m =
      let key = match_escrow_key m in
      elim (Bool-cases (has_key key a)) [
        | inl mine ↦
            let found : account_by_key key added ≡ some a = rw (added_finds key, mine) refl in
            rw (escrow_found m added a found, escrow_missing m l (unkeyed key mine), empty)
              (omega int_laws)
        | inr other ↦
            let same : account_by_key key added ≡ account_by_key key l =
              rw (added_finds key, other) refl in
            elim (Option-cases (account_by_key key l)) [
              | inl missing ↦
                  rw (escrow_missing m added (same ∙ missing), escrow_missing m l missing)
                    (omega int_laws)
              | inr (b, found) ↦
                  rw (escrow_found m added b (same ∙ found), escrow_found m l b found)
                    (omega int_laws)
            ]
      ]

  add_account-Moves : Moves nothing l added
  unfolding account_by_id
  add_account-Moves = record {
    indexed = record { unique = ground (arith, h.unique, fresh); keyed = added_keyed };
    kept = λ j b e. (b, ground (arith, find-absent a.id l.accounts fresh), (refl, refl, refl));
    escrows = added_escrow;
  }

pub key_eq→eq : (a b : SystemKey) → key_eq a b ≡ true → a ≡ b
key_eq→eq arena_point_issuance arena_point_issuance h = refl
key_eq→eq arena_point_adjustment arena_point_adjustment h = refl
key_eq→eq (match_escrow_key m) (match_escrow_key n) h = ap match_escrow_key (ground arith)
key_eq→eq arena_point_issuance arena_point_adjustment h = cc
key_eq→eq arena_point_issuance (match_escrow_key n) h = cc
key_eq→eq arena_point_adjustment arena_point_issuance h = cc
key_eq→eq arena_point_adjustment (match_escrow_key n) h = cc
key_eq→eq (match_escrow_key m) arena_point_issuance h = cc
key_eq→eq (match_escrow_key m) arena_point_adjustment h = cc

module _ {C : Type 0} (g : Platform) where
  upsert_account-Moves :
      (query : Ledger → Option LedgerAccount) (row : ℕ → LedgerAccount) (l : Ledger)
      → IsIndexed l
      → ((n : ℕ) → (row n).id ≡ n)
      → ((n : ℕ) → (row n).current_balance ≡ pos 0)
      → (query l ≡ none
          → (n : ℕ) (key : SystemKey) → has_key key (row n) ≡ true
          → account_by_key key l ≡ none)
      → Ensures (λ _ s. Moves nothing l s) (upsert_account {C = C} g query row l)
  unfolding upsert_account
  upsert_account-Moves query row l h id empty unkeyed = elim (Option-cases (query l)) [
    | inl missing ↦
        let n = g.draw (account_ids l.accounts) in
        elim (Bool-cases (account_checks (row n))) [
          | inl valid ↦
              rw (missing, upsert_account, valid)
                (committed (
                  add_account-Moves l (row n) h (empty n)
                    (rw (id n) (g.draw_fresh (account_ids l.accounts))) (unkeyed missing n)))
          | inr invalid ↦ rw (missing, upsert_account, invalid) rolled_back
        ]
    | inr (a, present) ↦ rw (present, upsert_account) (committed (Moves-same_accounts l l refl h))
  ]

  pub user_account-Moves :
      (w : ℕ) (l : Ledger)
      → IsIndexed l
      → Ensures
          (λ _ s. Moves nothing l s)
          (upsert_account {C = C} g (user_account w) (user_account_row w) l)
  user_account-Moves w l h =
      upsert_account-Moves (user_account w) (user_account_row w) l h (λ n. refl) (λ n. refl)
        λ _ n key k. absurd (ground arith)

  pub system_account-Moves :
      (kind : LedgerAccountType) (key : SystemKey) (l : Ledger)
      → IsIndexed l
      → Ensures
          (λ _ s. Moves nothing l s)
          (upsert_account {C = C} g (account_by_key key) (system_account_row kind key) l)
  system_account-Moves kind key l h =
      upsert_account-Moves (account_by_key key) (system_account_row kind key) l h (λ n. refl)
        (λ n. refl) λ missing n other k. rw (← key_eq→eq key other k) missing

  pub upsert_wallet-Moves :
      (user now : ℕ) (l : Ledger)
      → IsIndexed l
      → Ensures (λ _ s. Moves nothing l s) (upsert_wallet {C = C} g user now l)
  unfolding upsert_wallet
  upsert_wallet-Moves user now l h = elim (Option-cases (wallet_of_user user l)) [
    | inl missing ↦ rw (missing, upsert_wallet) (committed (Moves-same_accounts l _ refl h))
    | inr (w, present) ↦ rw (present, upsert_wallet) (committed (Moves-same_accounts l l refl h))
  ]

  pub create_transaction-Moves :
      (row : ℕ → LedgerTransaction) (l : Ledger)
      → IsIndexed l
      → Ensures (λ _ s. Moves nothing l s) (create_transaction {C = C} g row l)
  unfolding create_transaction
  create_transaction-Moves row l h =
      let t = row (g.draw (map (λ (r : LedgerTransaction). r.id) l.transactions)) in
      elim (Bool-cases (transaction_checks l.users t)) [
        | inl valid ↦ elim (Bool-cases (breaks_unique_key t l)) [
          | inl breaks ↦ rw (valid, breaks) rolled_back
          | inr fits ↦ rw (valid, fits) (committed (Moves-same_accounts l _ refl h))
        ]
        | inr invalid ↦ rw invalid rolled_back
      ]
