-- ===== src/Examples/Adjustments.antt =====
-- Adjustments of a wallet that holds 300 points: one that it covers, and one that it does not.
use arena_core.Prelude.{ℕ, text_eq, arith, ◌≡◌, refl, true, some, none, List, [], ◌∷◌, map, codes}
use arena_core.Prelude.Int.{ℤ, pos, negsuc}
use arena_core.Prelude.Outcome.{ok, after, or_throw, throw_if}
use arena_core.Ledger.{
  Ledger, LedgerAccount, posted, active, user_available, WalletRow, wallet_of_user, account_by_id,
  user_account, account_by_key, transaction_by_id, transaction_by_key, reversed_by, update_row,
  breaks_unique_key, set_balance, update_balance_if, balance_of, upsert_account, upsert_wallet,
  account_checks, in_bigint, owner_type_check, transaction_checks, key_format_check,
  fingerprint_check, reference_check, reversal_check, status_check, note_fits, entry_checks,
  create_transaction, create_audit_event,
}
use arena_core.Wallet.Policies.{next_balance}
use arena_core.Wallet.Repository.{
  PostedTransaction, checked, rethrown, entry_on_user_account, owner_of_entry, map_transaction,
  ensure_accounts, system_account, insert_by_account, sort_by_account, number_from,
}
use arena_core.Wallet.Posting.{
  replay, entry, posting_row, covers, post_new, post, reversed_entries, write_entries, reversal_row,
  mark_rows, mark_reversed, wallet_or_throw, reverse_new, reverse,
}
use arena_core.Books.Invariant.{IsSound}
use arena_core.Books.History.{later, posting, Reached-IsSound}
use arena_core.Examples.Setting.{digest, counting, committed_state, take_200}
use arena_core.Ledger.{debit, admin_adjustment, system_adjustment, arena_point_adjustment, coded}
use arena_core.Prelude.Outcome.{throw}
use arena_core.Wallet.Policies.{wallet_insufficient_balance}
use arena_core.Wallet.Repository.{PostLedgerInput}
use arena_core.Books.Success.{Posted}
use arena_core.Books.Storable.{IsStorable}
use arena_core.Books.Commit.{IsReady, post-commits, post-refuses}
use arena_core.Examples.Setting.{posting_of}
use arena_core.Examples.Postings.{after_issue, after_issue-Reached}

abbrev after_take : Ledger
after_take = committed_state (post counting take_200 after_issue)

abbrev taken_receipt : PostedTransaction
taken_receipt = record {
  id = 2;
  user_id = 7;
  type = admin_adjustment;
  status = posted;
  direction = debit;
  amount = pos 200;
  fingerprint = digest;
  balance_after = pos 300;
  reversed_by_id = none;
}

taken : post counting take_200 after_issue ≡ ok (taken_receipt, after_take)
unfolding after or_throw throw_if next_balance wallet_of_user account_by_id user_account
    account_by_key transaction_by_id transaction_by_key reversed_by update_row breaks_unique_key
    set_balance update_balance_if balance_of upsert_account upsert_wallet account_checks in_bigint
    owner_type_check transaction_checks key_format_check fingerprint_check reference_check
    reversal_check status_check note_fits entry_checks create_transaction create_audit_event replay
    entry posting_row covers post_new post reversed_entries write_entries reversal_row mark_rows
    mark_reversed wallet_or_throw reverse_new reverse checked rethrown entry_on_user_account
    owner_of_entry map_transaction ensure_accounts system_account insert_by_account sort_by_account
    number_from arena_core.Prelude.Int.◌+ℤ◌ arena_core.Prelude.Int.◌-ℤ◌ text_eq
taken = refl

after_take-IsSound : IsSound after_take
after_take-IsSound = Reached-IsSound (later after_issue-Reached (posting take_200 taken))

abbrev their_wallet : WalletRow
their_wallet = record { id = 1; user_id = 7; status = active; updated_at = 1000 }

abbrev their_account : LedgerAccount
their_account = record {
  id = 1;
  wallet_id = some 1;
  type = user_available;
  status = active;
  system_key = none;
  current_balance = pos 300;
  version = 3;
}

abbrev adjustments : LedgerAccount
adjustments = record {
  id = 4;
  wallet_id = none;
  type = system_adjustment;
  status = active;
  system_key = some arena_point_adjustment;
  current_balance = pos 200;
  version = 2;
}

abbrev take : ℕ → PostLedgerInput
take amount = posting_of admin_adjustment refl debit amount (codes "adjust-0002")

taking-IsReady :
    (amount : ℕ) → IsReady (take amount) their_wallet their_account adjustments after_take
unfolding after or_throw throw_if next_balance wallet_of_user account_by_id user_account
    account_by_key transaction_by_id transaction_by_key reversed_by update_row breaks_unique_key
    set_balance update_balance_if balance_of upsert_account upsert_wallet account_checks in_bigint
    owner_type_check transaction_checks key_format_check fingerprint_check reference_check
    reversal_check status_check note_fits entry_checks create_transaction create_audit_event replay
    entry posting_row covers post_new post reversed_entries write_entries reversal_row mark_rows
    mark_reversed wallet_or_throw reverse_new reverse checked rethrown entry_on_user_account
    owner_of_entry map_transaction ensure_accounts system_account insert_by_account sort_by_account
    number_from arena_core.Prelude.Int.◌+ℤ◌ arena_core.Prelude.Int.◌-ℤ◌ text_eq
taking-IsReady amount = record {
  registered = refl;
  at_user = refl;
  at_id = refl;
  writable = refl;
  account = refl;
  system = refl;
  new = refl;
}

taking-IsStorable : IsStorable (take 100) their_account adjustments (pos 200) (pos 300) after_take
unfolding after or_throw throw_if next_balance wallet_of_user account_by_id user_account
    account_by_key transaction_by_key reversed_by update_row breaks_unique_key set_balance
    update_balance_if balance_of upsert_account upsert_wallet account_checks in_bigint
    owner_type_check transaction_checks key_format_check fingerprint_check reference_check
    reversal_check status_check note_fits entry_checks create_transaction create_audit_event entry
    posting_row covers post_new post checked rethrown entry_on_user_account owner_of_entry
    map_transaction ensure_accounts system_account insert_by_account sort_by_account number_from
    arena_core.Prelude.Int.◌+ℤ◌ arena_core.Prelude.Int.◌-ℤ◌ text_eq
taking-IsStorable = record {
  user_row = refl;
  system_row = refl;
  user_fits = refl;
  system_fits = refl;
  amount_fits = refl;
  key_accepted = refl;
  fingerprint_accepted = refl;
  note_accepted = refl;
  actor_known = refl;
}

-- `Books.Commit.post-commits` for a debit of 100.
post-commits_example :
    (t : PostedTransaction) × (s : Ledger) × (post counting (take 100) after_take ≡ ok (t, s))
    × Posted (take 100) their_wallet their_account adjustments (pos 200) (pos 300) t s
    × (post counting (take 100) s ≡ ok (t, s))
unfolding arena_core.Prelude.Int.◌+ℤ◌ arena_core.Prelude.Int.◌-ℤ◌
post-commits_example =
    post-commits counting (take 100) their_wallet their_account adjustments after_take
      (taking-IsReady 100) after_take-IsSound (omega arith) (omega arith) taking-IsStorable

-- `Books.Commit.post-refuses` for a debit of 400.
post-refuses_example :
    post counting (take 400) after_take ≡ throw (coded wallet_insufficient_balance)
post-refuses_example =
    post-refuses counting (take 400) their_wallet their_account adjustments after_take
      (taking-IsReady 400) after_take-IsSound (omega arith) refl refl
