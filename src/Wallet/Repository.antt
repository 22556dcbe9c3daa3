-- ===== src/Wallet/Repository.antt =====
-- `PrismaWalletRepository` (packages/wallet/src/infrastructure/prisma-wallet-repository.ts): each
-- method is one database transaction on the ledger tables. Row locks have no effect in a serial
-- execution and are left out; so is `listEntries`, a plain listing.
use arena_core.Prelude.{
  ℕ, suc, ◌≡◌, Bool, false, Option, none, some, List, [], ◌∷◌, Text, leb, ◌==◌, if◌then◌else◌, find,
  is_some,
}
use arena_core.Prelude.Int.{ℤ, pos}
use arena_core.Prelude.Outcome.{Outcome, ok, throw, pure, gets, or_throw, ◌>>=◌, ◌>>◌}
use arena_core.Ledger.{
  WalletStatus, LedgerDirection, LedgerTransactionType, LedgerTransactionStatus, system_issuance,
  system_adjustment, arena_point_issuance, arena_point_adjustment, wallet_created, AdjustmentReason,
  lazy_creation, WalletRow, LedgerAccount, LedgerEntry, LedgerTransaction, Ledger,
  is_user_available, is_reversal, Platform, coded, unique_violation, record_not_found,
  check_violation, LedgerTx, wallet_of_user, account_by_id, account_by_key, user_account,
  transaction_by_id, transaction_by_key, reversed_by, upsert_account, upsert_wallet,
  create_audit_event, user_account_row, system_account_row,
}
use arena_core.Wallet.Policies.{
  WalletErrorCode, wallet_not_found, wallet_idempotency_conflict, wallet_ledger_invariant_violation,
  wallet_persistence_failure, WalletError, Checked,
}

abbrev pub WalletTx : Type 0 → Type 0
WalletTx A = LedgerTx WalletErrorCode A

pub record WalletRecord : Type 0 where
  pub id : ℕ
  pub user_id : ℕ
  pub status : WalletStatus
  pub balance : ℤ
  pub updated_at : ℕ

pub record PostedTransaction : Type 0 where
  pub id : ℕ
  pub user_id : ℕ
  pub type : LedgerTransactionType
  pub status : LedgerTransactionStatus
  pub direction : LedgerDirection
  pub amount : ℤ
  pub fingerprint : Text
  pub balance_after : ℤ
  pub reversed_by_id : Option ℕ

-- The type is `Exclude<LedgerTransactionType, 'REVERSAL'>`.
pub record PostLedgerInput : Type 0 where
  pub user_id : ℕ
  pub actor_user_id : ℕ
  pub type : LedgerTransactionType
  pub excludes_reversal : is_reversal type ≡ false
  pub direction : LedgerDirection
  pub amount : ℤ
  pub idempotency_key : Text
  pub fingerprint : Text
  pub reason_code : AdjustmentReason
  pub note : Option Text
  pub now : ℕ

pub record ReverseLedgerInput : Type 0 where
  pub transaction_id : ℕ
  pub actor_user_id : ℕ
  pub idempotency_key : Text
  pub fingerprint : Text
  pub reason_code : AdjustmentReason
  pub note : Option Text
  pub now : ℕ

pub record WalletReconciliationResult : Type 0 where
  pub consistent : Bool
  pub stored_balance : ℤ
  pub derived_balance : ℤ
  pub difference : ℤ

-- A check of the policies inside a transaction.
unfoldable pub checked : {A : Type 0} → Checked A → WalletTx A
checked (ok a) l = ok (a, l)
checked (throw e) l = throw e

-- `persistence`: the error that leaves the repository.
abbrev pub persistence : WalletError → WalletError
persistence (coded code) = coded code
persistence unique_violation = coded wallet_idempotency_conflict
persistence record_not_found = coded wallet_persistence_failure
persistence check_violation = coded wallet_persistence_failure

-- `try { … } catch (error) { return persistence(error) }`.
unfoldable pub rethrown :
    {A : Type 0} → Outcome WalletError (A × Ledger) → Outcome WalletError (A × Ledger)
rethrown (ok r) = ok r
rethrown (throw e) = throw (persistence e)

-- `mapWallet`.
unfoldable pub map_wallet : WalletRow → Ledger → WalletRecord
map_wallet row l = record {
  id = row.id;
  user_id = row.user_id;
  status = row.status;
  balance = elim (user_account row.id l) [ none ↦ pos 0 | some a ↦ a.current_balance ];
  updated_at = row.updated_at;
}

-- The user who owns the account of an entry, if it is a user's: `entry.account.wallet?.userId`.
unfoldable pub entry_on_user_account : Ledger → LedgerEntry → Bool
entry_on_user_account l e = elim (account_by_id e.account_id l) [
  | none ↦ false
  | some a ↦ is_user_available a.type
]

unfoldable pub owner_of_entry : Ledger → LedgerEntry → Option ℕ
owner_of_entry l e = elim (account_by_id e.account_id l) [
  | none ↦ none
  | some a ↦ elim a.wallet_id [
    | none ↦ none
    | some w ↦ elim (find (λ (r : WalletRow). r.id == w) l.wallets) [
      | none ↦ none
      | some r ↦ some r.user_id
    ]
  ]
]

-- `mapTransaction`.
unfoldable pub map_transaction : LedgerTransaction → WalletTx PostedTransaction
map_transaction row = do
  user_entry ← gets (λ l. find (entry_on_user_account l) row.entries)
  entry ← or_throw user_entry (coded wallet_ledger_invariant_violation)
  owner ← gets (λ l. owner_of_entry l entry)
  user_id ← or_throw owner (coded wallet_ledger_invariant_violation)
  reversing ← gets (reversed_by row.id)
  pure (record {
    id = row.id;
    user_id = user_id;
    type = row.type;
    status = row.status;
    direction = entry.direction;
    amount = entry.amount;
    fingerprint = row.request_fingerprint;
    balance_after = entry.balance_after;
    reversed_by_id = elim reversing [ none ↦ none | some t ↦ some t.id ];
  })

-- `ensureAccounts`.
unfoldable pub ensure_accounts : Platform → ℕ → ℕ → WalletTx (WalletRow × LedgerAccount)
ensure_accounts g user_id now = do
  user ← gets (λ l. find (λ u. u == user_id) l.users)
  known ← or_throw user (coded wallet_not_found)
  wallet ← upsert_wallet g user_id now
  account ← upsert_account g (user_account wallet.id) (user_account_row wallet.id)
  pure (wallet, account)

-- `systemAccount`.
unfoldable pub system_account : Platform → Bool → WalletTx LedgerAccount
system_account g for_issuance =
    if for_issuance
    then upsert_account g (account_by_key arena_point_issuance)
        (system_account_row system_issuance arena_point_issuance)
    else upsert_account g (account_by_key arena_point_adjustment)
        (system_account_row system_adjustment arena_point_adjustment)

-- `.sort((left, right) => left.accountId.localeCompare(right.accountId))`: a stable sort.
unfoldable pub insert_by_account : LedgerEntry → List LedgerEntry → List LedgerEntry
insert_by_account e [] = e ∷ []
insert_by_account e (f ∷ es) =
    if leb e.account_id f.account_id then e ∷ (f ∷ es) else f ∷ insert_by_account e es

unfoldable pub sort_by_account : List LedgerEntry → List LedgerEntry
sort_by_account [] = []
sort_by_account (e ∷ es) = insert_by_account e (sort_by_account es)

-- `.map((entry, index) => ({ ...entry, sequence: index + 1 }))`.
unfoldable pub number_from : ℕ → List LedgerEntry → List LedgerEntry
number_from n [] = []
number_from n (e ∷ es) = record e { sequence = n } ∷ number_from (suc n) es

-- `ensureWallet`.
unfoldable pub ensure_wallet : Platform → ℕ → ℕ → WalletTx WalletRecord
ensure_wallet g user_id now l = rethrown (
    (do
      existing ← gets (wallet_of_user user_id)
      accounts ← ensure_accounts g user_id now
      (if is_some existing
          then pure tt
          else create_audit_event (record {
            wallet_id = accounts.0.id;
            actor_user_id = user_id;
            action = wallet_created;
            reason_code = lazy_creation;
            transaction_id = none;
            note = none;
          }))
      gets (map_wallet accounts.0))
      l)

-- `getWallet`.
unfoldable pub get_wallet : ℕ → Ledger → Option WalletRecord
get_wallet user_id l = elim (wallet_of_user user_id l) [
  | none ↦ none
  | some row ↦ some (map_wallet row l)
]

-- `findByIdempotencyKey` and `findTransaction`.
abbrev pub map_found : Option LedgerTransaction → WalletTx (Option PostedTransaction)
map_found none l = ok (none, l)
map_found (some row) l = (map_transaction row >>= λ t. pure (some t)) l

unfoldable pub find_by_idempotency_key : Text → WalletTx (Option PostedTransaction)
find_by_idempotency_key key = do row ← gets (transaction_by_key key); map_found row

unfoldable pub find_transaction : ℕ → WalletTx (Option PostedTransaction)
find_transaction id = do row ← gets (transaction_by_id id); map_found row
