-- ===== src/Wallet/Posting.antt =====
-- `post`, `reverse` and `reconcile` of `PrismaWalletRepository`
-- (packages/wallet/src/infrastructure/prisma-wallet-repository.ts).
use arena_core.Prelude.{
  ℕ, Bool, true, false, not, ◌||◌, none, some, List, [], ◌∷◌, Text, codes, text_eq, ◌==◌,
  if◌then◌else◌, find, is_some,
}
use arena_core.Prelude.Int.{ℤ, pos, ◌+ℤ◌, ◌-ℤ◌, leb_ℤ, eqb_ℤ}
use arena_core.Prelude.Outcome.{pure, gets, modify, throw_if, or_throw, ◌>>=◌, ◌>>◌}
use arena_core.Ledger.{
  LedgerDirection, reversal, posted, reversed, system_issuance_reference,
  admin_adjustment_reference, points_issued, balance_adjusted, transaction_reversed,
  reconciliation_checked, reconciliation_mismatch, requested, manual_reconciliation, WalletRow,
  LedgerAccount, LedgerEntry, LedgerTransaction, is_active, is_closed, is_suspended, is_credit,
  is_posted, is_issuance, is_reversal, is_user_available, opposite, Platform, coded,
  record_not_found, wallet_of_user, account_by_id, user_account, transaction_by_id,
  transaction_by_key, reversed_by, set_balance, update_balance_if, balance_of, create_transaction,
  create_audit_event,
}
use arena_core.Wallet.Policies.{
  wallet_not_found, wallet_suspended, wallet_closed, wallet_insufficient_balance,
  wallet_idempotency_conflict, wallet_transaction_not_found, wallet_transaction_not_reversible,
  wallet_ledger_invariant_violation, next_balance,
}
use arena_core.Wallet.Repository.{
  WalletTx, PostedTransaction, PostLedgerInput, ReverseLedgerInput, WalletReconciliationResult,
  checked, rethrown, map_transaction, ensure_accounts, system_account, sort_by_account, number_from,
  entry_on_user_account, owner_of_entry,
}

-- A repeated idempotency key: the stored transaction if the request is the same, else a conflict.
unfoldable pub replay : Text → LedgerTransaction → WalletTx PostedTransaction
replay fingerprint existing = do
  throw_if (not (text_eq existing.request_fingerprint fingerprint))
      (coded wallet_idempotency_conflict)
  map_transaction existing

unfoldable pub entry : ℕ → LedgerDirection → ℤ → ℤ → LedgerEntry
entry account_id direction amount balance_after = record {
  account_id = account_id;
  direction = direction;
  amount = amount;
  balance_after = balance_after;
  sequence = 0;
}

-- The row that `post` creates.
unfoldable pub posting_row : PostLedgerInput → List LedgerEntry → ℕ → LedgerTransaction
posting_row input entries id = record {
  id = id;
  type = input.type;
  status = posted;
  idempotency_key = input.idempotency_key;
  request_fingerprint = input.fingerprint;
  reference_type =
      if is_issuance input.type then system_issuance_reference else admin_adjustment_reference;
  reference_id = none;
  description =
      if is_issuance input.type
      then codes "Arena Point issuance"
      else codes "Arena Point adjustment";
  internal_note = input.note;
  created_by_user_id = input.actor_user_id;
  reverses_transaction_id = none;
  posted_at = input.now;
  reversed_at = none;
  entries = number_from 1 (sort_by_account entries);
}

-- `{ gte: amount }` is asked of a debit only.
unfoldable pub covers : LedgerDirection → ℤ → LedgerAccount → Bool
covers direction amount a = is_credit direction || leb_ℤ amount a.current_balance

-- The part of `post` after the lookup of the idempotency key.
unfoldable pub post_new : Platform → PostLedgerInput → WalletTx PostedTransaction
post_new g input = do
  accounts ← ensure_accounts g input.user_id input.now
  throw_if (is_suspended accounts.0.status) (coded wallet_suspended)
  throw_if (is_closed accounts.0.status) (coded wallet_closed)
  system ← system_account g (is_issuance input.type)
  fresh ← balance_of accounts.1.id
  user_after ← checked (next_balance fresh input.direction input.amount true)
  system_after ←
      checked (next_balance system.current_balance (opposite input.direction) input.amount false)
  count ← update_balance_if accounts.1.id (covers input.direction input.amount) (λ _. user_after)
  throw_if (count == 0) (coded wallet_insufficient_balance)
  set_balance system.id system_after
  transaction ← create_transaction g (
      posting_row input (
        entry accounts.1.id input.direction input.amount user_after
        ∷ entry system.id (opposite input.direction) input.amount system_after
        ∷ []))
  create_audit_event (record {
    wallet_id = accounts.0.id;
    actor_user_id = input.actor_user_id;
    action = if is_issuance input.type then points_issued else balance_adjusted;
    reason_code = requested input.reason_code;
    transaction_id = some transaction.id;
    note = input.note;
  })
  map_transaction transaction

-- `post`.
unfoldable pub post : Platform → PostLedgerInput → WalletTx PostedTransaction
post g input l = rethrown (elim (transaction_by_key input.idempotency_key l) [
  | some existing ↦ replay input.fingerprint existing l
  | none ↦ post_new g input l
])

-- The entries that undo those of a transaction: opposite directions, with the balances after.
unfoldable pub reversed_entries : List LedgerEntry → WalletTx (List LedgerEntry)
reversed_entries [] = pure []
reversed_entries (e ∷ es) = do
  row ← gets (account_by_id e.account_id)
  account ← or_throw row record_not_found
  balance_after ← checked (
      next_balance account.current_balance (opposite e.direction) e.amount
        (is_user_available account.type))
  rest ← reversed_entries es
  pure (entry e.account_id (opposite e.direction) e.amount balance_after ∷ rest)

-- `for (const entry of reversedEntries) await tx.ledgerAccount.update(…)`.
unfoldable pub write_entries : List LedgerEntry → WalletTx (Unit {0})
write_entries [] = pure tt
write_entries (e ∷ es) = do set_balance e.account_id e.balance_after; write_entries es

unfoldable pub reversal_row :
    ReverseLedgerInput → LedgerTransaction → List LedgerEntry → ℕ → LedgerTransaction
reversal_row input original entries id = record {
  id = id;
  type = reversal;
  status = posted;
  idempotency_key = input.idempotency_key;
  request_fingerprint = input.fingerprint;
  reference_type = admin_adjustment_reference;
  reference_id = some original.id;
  description = codes "Arena Point transaction reversal";
  internal_note = input.note;
  created_by_user_id = input.actor_user_id;
  reverses_transaction_id = some original.id;
  posted_at = input.now;
  reversed_at = none;
  entries = number_from 1 entries;
}

-- `ledgerTransaction.update({ where: { id, status: 'POSTED' }, data: { status: 'REVERSED' } })`.
unfoldable pub mark_rows : ℕ → ℕ → List LedgerTransaction → List LedgerTransaction
mark_rows id now [] = []
mark_rows id now (t ∷ ts) =
    (if t.id == id then record t { status = reversed; reversed_at = some now } else t)
    ∷ mark_rows id now ts

unfoldable pub mark_reversed : ℕ → ℕ → WalletTx (Unit {0})
mark_reversed id now = do
  row ← gets (transaction_by_id id)
  t ← or_throw row record_not_found
  throw_if (not (is_posted t.status)) record_not_found
  modify (λ l. record l { transactions = mark_rows id now l.transactions })

-- `wallet.findUniqueOrThrow({ where: { userId } })`.
unfoldable pub wallet_or_throw : ℕ → WalletTx WalletRow
wallet_or_throw user_id = do row ← gets (wallet_of_user user_id); or_throw row record_not_found

-- The part of `reverse` after the lookup of the idempotency key.
unfoldable pub reverse_new : Platform → ReverseLedgerInput → WalletTx PostedTransaction
reverse_new g input = do
  row ← gets (transaction_by_id input.transaction_id)
  original ← or_throw row (coded wallet_transaction_not_found)
  reversing ← gets (reversed_by original.id)
  throw_if (not (is_posted original.status) || is_reversal original.type || is_some reversing)
      (coded wallet_transaction_not_reversible)
  user_entry ← gets (λ l. find (entry_on_user_account l) original.entries)
  on_user ← or_throw user_entry (coded wallet_ledger_invariant_violation)
  owner ← gets (λ l. owner_of_entry l on_user)
  user_id ← or_throw owner (coded wallet_ledger_invariant_violation)
  system_entry ← gets (λ l. find (λ e. not (entry_on_user_account l e)) original.entries)
  on_system ← or_throw system_entry (coded wallet_ledger_invariant_violation)
  wallet ← wallet_or_throw user_id
  throw_if (not (is_active wallet.status))
      (coded (if is_closed wallet.status then wallet_closed else wallet_suspended))
  entries ← reversed_entries original.entries
  write_entries (sort_by_account entries)
  transaction ← create_transaction g (reversal_row input original (sort_by_account entries))
  mark_reversed original.id input.now
  create_audit_event (record {
    wallet_id = wallet.id;
    actor_user_id = input.actor_user_id;
    action = transaction_reversed;
    reason_code = requested input.reason_code;
    transaction_id = some transaction.id;
    note = input.note;
  })
  map_transaction transaction

-- `reverse`.
unfoldable pub reverse : Platform → ReverseLedgerInput → WalletTx PostedTransaction
reverse g input l = rethrown (elim (transaction_by_key input.idempotency_key l) [
  | some existing ↦ replay input.fingerprint existing l
  | none ↦ reverse_new g input l
])

-- `entry.direction === 'CREDIT' ? entry.amount : -entry.amount`.
abbrev pub signed : LedgerEntry → ℤ
signed e = if is_credit e.direction then e.amount else pos 0 -ℤ e.amount

-- The sum of an account's entries: the `reduce` of `reconcile`.
unfoldable pub entries_balance : ℕ → List LedgerEntry → ℤ
entries_balance id [] = pos 0
entries_balance id (e ∷ es) =
    (if e.account_id == id then signed e else pos 0) +ℤ entries_balance id es

unfoldable pub derived_balance : ℕ → List LedgerTransaction → ℤ
derived_balance id [] = pos 0
derived_balance id (t ∷ ts) = entries_balance id t.entries +ℤ derived_balance id ts

-- `reconcile`.
unfoldable pub reconcile : ℕ → ℕ → WalletTx WalletReconciliationResult
reconcile user_id actor_user_id l = rethrown (
    (do
      row ← gets (wallet_of_user user_id)
      wallet ← or_throw row (coded wallet_not_found)
      accounts ← gets (user_account wallet.id)
      account ← or_throw accounts (coded wallet_not_found)
      derived ← gets (λ s. derived_balance account.id s.transactions)
      create_audit_event (record {
        wallet_id = wallet.id;
        actor_user_id = actor_user_id;
        action =
            if eqb_ℤ (account.current_balance -ℤ derived) (pos 0)
            then reconciliation_checked
            else reconciliation_mismatch;
        reason_code = manual_reconciliation;
        transaction_id = none;
        note = none;
      })
      pure (record {
        consistent = eqb_ℤ (account.current_balance -ℤ derived) (pos 0);
        stored_balance = account.current_balance;
        derived_balance = derived;
        difference = account.current_balance -ℤ derived;
      }))
      l)
