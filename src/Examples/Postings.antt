-- ===== src/Examples/Postings.antt =====
-- An issuance and an adjustment for one user.
use arena_core.Prelude.{ℕ, ◌≡◌, refl, some, none, List, [], map, codes}
use arena_core.Prelude.Int.{ℤ, pos, negsuc}
use arena_core.Prelude.Outcome.{ok, Ensures, after, or_throw, throw_if}
use arena_core.Ledger.{
  Ledger, LedgerAccount, issuance, posted, credit, active, user_available, WalletRow,
  wallet_of_user, account_by_id, user_account, account_by_key, transaction_by_id,
  transaction_by_key, reversed_by, update_row, breaks_unique_key, set_balance, update_balance_if,
  balance_of, upsert_account, upsert_wallet, account_checks, in_bigint, owner_type_check,
  transaction_checks, key_format_check, fingerprint_check, reference_check, reversal_check,
  status_check, note_fits, entry_checks, create_transaction, create_audit_event,
}
use arena_core.Wallet.Policies.{next_balance}
use arena_core.Wallet.Repository.{
  PostedTransaction, checked, rethrown, entry_on_user_account, owner_of_entry, map_transaction,
  ensure_accounts, system_account, insert_by_account, sort_by_account, number_from,
}
use arena_core.Wallet.Posting.{
  replay, entry, posting_row, covers, post_new, post, reversed_entries, write_entries, reversal_row,
  mark_rows, mark_reversed, wallet_or_throw, reverse_new, reverse,
}
use arena_core.Books.Invariant.{IsSound}
use arena_core.Books.Posting.{post-IsSound}
use arena_core.Books.Reversal.{reverse-IsSound}
use arena_core.Books.History.{Reached, created, later, registered, posting, Reached-IsSound}
use arena_core.Examples.Setting.{
  digest, counting, committed_state, one_user, issue_500, take_200, undo,
}

abbrev pub after_issue : Ledger
after_issue = committed_state (post counting issue_500 one_user)

abbrev issued_receipt : PostedTransaction
issued_receipt = record {
  id = 1;
  user_id = 7;
  type = issuance;
  status = posted;
  direction = credit;
  amount = pos 500;
  fingerprint = digest;
  balance_after = pos 500;
  reversed_by_id = none;
}

pub issued : post counting issue_500 one_user ≡ ok (issued_receipt, after_issue)
unfolding after or_throw throw_if next_balance wallet_of_user account_by_id user_account
    account_by_key transaction_by_id transaction_by_key reversed_by update_row breaks_unique_key
    set_balance update_balance_if balance_of upsert_account upsert_wallet account_checks in_bigint
    owner_type_check transaction_checks key_format_check fingerprint_check reference_check
    reversal_check status_check note_fits entry_checks create_transaction create_audit_event replay
    entry posting_row covers post_new post reversed_entries write_entries reversal_row mark_rows
    mark_reversed wallet_or_throw reverse_new reverse checked rethrown entry_on_user_account
    owner_of_entry map_transaction ensure_accounts system_account insert_by_account sort_by_account
    number_from arena_core.Prelude.Int.◌+ℤ◌ arena_core.Prelude.Int.◌-ℤ◌
issued = refl

one_user-Reached : Reached counting one_user
one_user-Reached = later (later created (registered 1)) (registered 7)

pub after_issue-Reached : Reached counting after_issue
after_issue-Reached = later one_user-Reached (posting issue_500 issued)

-- `Books.History.Reached-IsSound` after a registration and an issuance.
Reached-IsSound_example : IsSound after_issue
Reached-IsSound_example = Reached-IsSound after_issue-Reached

-- `Books.Posting.post-IsSound` for a debit after an issuance.
post-IsSound_example : Ensures (λ _ s. IsSound s) (post counting take_200 after_issue)
post-IsSound_example =
    post-IsSound counting take_200 after_issue (Reached-IsSound after_issue-Reached)

-- `Books.Reversal.reverse-IsSound` for the issuance.
reverse-IsSound_example : Ensures (λ _ s. IsSound s) (reverse counting (undo 1) after_issue)
reverse-IsSound_example =
    reverse-IsSound counting (undo 1) after_issue (Reached-IsSound after_issue-Reached)

abbrev their_wallet : WalletRow
their_wallet = record { id = 1; user_id = 7; status = active; updated_at = 1000 }

abbrev their_account : LedgerAccount
their_account = record {
  id = 1;
  wallet_id = some 1;
  type = user_available;
  status = active;
  system_key = none;
  current_balance = pos 500;
  version = 2;
}
