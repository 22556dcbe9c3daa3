-- ===== src/Ledger/Queries.antt =====
-- The queries on the ledger tables, as the repositories and adapters write them (`findUnique`,
-- `upsert`, `updateMany`, `create` in
-- packages/wallet/src/infrastructure/prisma-wallet-repository.ts and
-- packages/match-finance/src/infrastructure/wallet-ledger-adapter.ts), with the unique keys and the
-- CHECK constraints (Ledger/Checks) of
-- packages/database/prisma/migrations/20260727100000_create_wallet_ledger/migration.sql.
use arena_core.Prelude.{
  ℕ, ◌+◌, Bool, false, not, ◌&&◌, ◌||◌, Option, none, some, List, [], ◌∷◌, map, Text, text_eq, ◌==◌,
  if◌then◌else◌, find, is_some, contains, distinct, opt_eq, ◌≡◌,
}
use arena_core.Ledger.Types.{
  active, LedgerAccountType, user_available, SystemKey, WalletRow, LedgerAccount, LedgerEntry,
  LedgerTransaction, WalletAuditEvent, Ledger, is_user_available, key_eq,
}
use arena_core.Ledger.Checks.{account_checks, transaction_checks}
use arena_core.Prelude.Int.{ℤ, pos, ◌+ℤ◌}
use arena_core.Prelude.Outcome.{Tx, ok, throw, pure, gets, modify, throw_if, or_throw, ◌>>=◌, ◌>>◌}

-- What the database and the hash function, which are not part of the repository, provide:
-- `gen_random_uuid()` draws an identifier that the table does not hold, `createHash('sha256')` is a
-- function, and an identifier has a textual form.
pub record Platform : Type 0 where
  pub draw : List ℕ → ℕ
  pub draw_fresh : (used : List ℕ) → contains used (draw used) ≡ false
  pub sha256 : Text → Text
  pub uuid_text : ℕ → Text

-- What a call throws: an error with the package's code, a violated unique key (Prisma's P2002), a
-- row that an update or `findUniqueOrThrow` does not find, or a violated CHECK of a table.
pub data Failure (C : Type 0) : Type 0 where
  coded : C → Failure C
  unique_violation record_not_found check_violation : Failure C

abbrev pub LedgerTx : Type 0 → Type 0 → Type 0
LedgerTx C A = Tx Ledger (Failure C) A

abbrev pub account_ids : List LedgerAccount → List ℕ
account_ids [] = []
account_ids (a ∷ rest) = a.id ∷ account_ids rest

abbrev pub entry_account_ids : List LedgerEntry → List ℕ
entry_account_ids [] = []
entry_account_ids (e ∷ es) = e.account_id ∷ entry_account_ids es

abbrev pub has_wallet : ℕ → LedgerAccount → Bool
has_wallet w a = opt_eq a.wallet_id (some w) && is_user_available a.type

abbrev pub has_key : SystemKey → LedgerAccount → Bool
has_key key a = elim a.system_key [ none ↦ false | some k ↦ key_eq k key ]

-- `findUnique` by each of the unique keys.
unfoldable pub wallet_of_user : ℕ → Ledger → Option WalletRow
wallet_of_user u l = find (λ w. w.user_id == u) l.wallets

unfoldable pub account_by_id : ℕ → Ledger → Option LedgerAccount
account_by_id id l = find (λ a. a.id == id) l.accounts

unfoldable pub user_account : ℕ → Ledger → Option LedgerAccount
user_account w l = find (has_wallet w) l.accounts

unfoldable pub account_by_key : SystemKey → Ledger → Option LedgerAccount
account_by_key key l = find (has_key key) l.accounts

unfoldable pub transaction_by_id : ℕ → Ledger → Option LedgerTransaction
transaction_by_id id l = find (λ t. t.id == id) l.transactions

unfoldable pub transaction_by_key : Text → Ledger → Option LedgerTransaction
transaction_by_key key l = find (λ t. text_eq t.idempotency_key key) l.transactions

-- The `reversedBy` relation: the transaction that reverses this one.
unfoldable pub reversed_by : ℕ → Ledger → Option LedgerTransaction
reversed_by id l = find (λ t. opt_eq t.reverses_transaction_id (some id)) l.transactions

-- Rows with this identifier, rewritten.
unfoldable pub update_row :
    ℕ → (LedgerAccount → LedgerAccount) → List LedgerAccount → List LedgerAccount
update_row id f [] = []
update_row id f (a ∷ rest) = (if a.id == id then f a else a) ∷ update_row id f rest

-- `data: { currentBalance: v, version: { increment: 1 } }`.
abbrev pub with_balance : ℤ → LedgerAccount → LedgerAccount
with_balance v a = record a { current_balance = v; version = a.version + 1 }

abbrev pub write_balance : ℕ → ℤ → Ledger → Ledger
write_balance id v l = record l { accounts = update_row id (with_balance v) l.accounts }

-- The unique keys of `ledger_transactions` and of the account within a transaction.
unfoldable pub breaks_unique_key : LedgerTransaction → Ledger → Bool
unfolding transaction_by_key reversed_by
breaks_unique_key t l =
    is_some (transaction_by_key t.idempotency_key l)
    || elim t.reverses_transaction_id [ none ↦ false | some o ↦ is_some (reversed_by o l) ]
    || not (distinct (entry_account_ids t.entries))

module _ {C : Type 0} where
  -- `update({ where: { id }, data: { currentBalance: v } })`.
  unfoldable pub set_balance : ℕ → ℤ → LedgerTx C (Unit {0})
  set_balance id v = do
    row ← gets (account_by_id id)
    found ← or_throw row record_not_found
    throw_if (not (account_checks (with_balance v found))) check_violation
    modify (write_balance id v)

  -- `update({ where: { id }, data: { currentBalance: { increment: d } } })`, and the new balance.
  unfoldable pub increment_balance : ℕ → ℤ → LedgerTx C ℤ
  increment_balance id d = do
    row ← gets (account_by_id id)
    found ← or_throw row record_not_found
    throw_if (not (account_checks (with_balance (found.current_balance +ℤ d) found)))
        check_violation
    modify (write_balance id (found.current_balance +ℤ d))
    pure (found.current_balance +ℤ d)

  -- `updateMany` on a primary key with further conditions: writes at most one row, and returns how
  -- many it wrote.
  unfoldable pub update_balance_if : ℕ → (LedgerAccount → Bool) → (LedgerAccount → ℤ) → LedgerTx C ℕ
  update_balance_if id test value = do
    row ← gets (account_by_id id)
    elim row [
      | none ↦ pure 0
      | some a ↦
          if test a
          then (throw_if (not (account_checks (with_balance (value a) a))) check_violation
              >> modify (write_balance id (value a))
              >> pure 1)
          else pure 0
    ]

  -- `findUniqueOrThrow({ where: { id } })`.
  unfoldable pub balance_of : ℕ → LedgerTx C ℤ
  balance_of id = do
    row ← gets (account_by_id id)
    found ← or_throw row record_not_found
    pure found.current_balance

  -- `ledgerAccount.upsert`: an existing row is left as it is, a new one has balance 0, and is to
  -- pass the CHECK constraints.
  unfoldable pub upsert_account :
      Platform → (Ledger → Option LedgerAccount) → (ℕ → LedgerAccount) → LedgerTx C LedgerAccount
  upsert_account g query fresh l = elim (query l) [
    | some a ↦ ok (a, l)
    | none ↦
        let a = fresh (g.draw (account_ids l.accounts)) in
        if account_checks a
        then ok (a, record l { accounts = a ∷ l.accounts })
        else throw check_violation
  ]

  -- `wallet.upsert`: a new wallet is active.
  unfoldable pub upsert_wallet : Platform → ℕ → ℕ → LedgerTx C WalletRow
  upsert_wallet g user now l = elim (wallet_of_user user l) [
    | some w ↦ ok (w, l)
    | none ↦
        let w : WalletRow = record {
          id = g.draw (map (λ (r : WalletRow). r.id) l.wallets);
          user_id = user;
          status = active;
          updated_at = now;
        } in
        ok (w, record l { wallets = w ∷ l.wallets })
  ]

  -- `ledgerTransaction.create`, with the CHECK constraints, and the unique keys on the idempotency key,
  -- on the reversed transaction, and on the account within a transaction.
  unfoldable pub create_transaction :
      Platform → (ℕ → LedgerTransaction) → LedgerTx C LedgerTransaction
  create_transaction g row l =
      let t = row (g.draw (map (λ (r : LedgerTransaction). r.id) l.transactions)) in
      if not (transaction_checks l.users t)
      then throw check_violation
      else if breaks_unique_key t l
      then throw unique_violation
      else ok (t, record l { transactions = t ∷ l.transactions })

  unfoldable pub create_audit_event : WalletAuditEvent → LedgerTx C (Unit {0})
  create_audit_event e = modify (λ l. record l { audit_events = e ∷ l.audit_events })

-- New rows.
abbrev pub user_account_row : ℕ → ℕ → LedgerAccount
user_account_row w id = record {
  id = id;
  wallet_id = some w;
  type = user_available;
  status = active;
  system_key = none;
  current_balance = pos 0;
  version = 1;
}

abbrev pub system_account_row : LedgerAccountType → SystemKey → ℕ → LedgerAccount
system_account_row kind key id = record {
  id = id;
  wallet_id = none;
  type = kind;
  status = active;
  system_key = some key;
  current_balance = pos 0;
  version = 1;
}
