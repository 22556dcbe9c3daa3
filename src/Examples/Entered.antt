-- ===== src/Examples/Entered.antt =====
-- A user with points who enters a match that asks for none of them.
use arena_core.Prelude.{
  ℕ, ◌≡◌, refl, false, none, [], ◌∷◌, codes, text_eq, some, true, ◌≤◌, length, keep, arith,
}
use arena_core.Prelude.Int.{pos}
use arena_core.Prelude.Outcome.{Outcome, ok, throw, Ensures, after, or_throw, throw_if}
use arena_core.Ledger.{
  wallet_of_user, account_by_id, user_account, account_by_key, transaction_by_key, reversed_by,
  update_row, breaks_unique_key, update_balance_if, balance_of, increment_balance, upsert_account,
  upsert_wallet, account_checks, in_bigint, owner_type_check, transaction_checks, key_format_check,
  fingerprint_check, reference_check, reversal_check, status_check, note_fits, entry_checks,
  create_transaction, set_balance, create_audit_event,
}
use arena_core.Wallet.Amount.{digits_value, serialize_wallet_amount}
use arena_core.Wallet.Policies.{next_balance}
use arena_core.Wallet.Posting.{entry, post, post_new, covers, posting_row}
use arena_core.Wallet.Repository.{
  number_from, rethrown, ensure_accounts, system_account, checked, sort_by_account,
  insert_by_account, map_transaction, entry_on_user_account, owner_of_entry,
}
use arena_core.Finance.Types.{created, not_required}
use arena_core.Finance.Adapter.{finance_row, active_with, reserve, get_escrow_balance}
use arena_core.Finance.Requirement.{
  property, is_entry_amount, checked_entry, amount_of_entry, parse_entry, parse_requirement,
}
use arena_core.Finance.Reservations.{ReservationView, to_reservation_view, reservation_fingerprint}
use arena_core.Finance.Store.{
  FinanceStore, MatchRow, satisfies_checks, required_fields_check, status_checks,
  settlement_state_check, with_ledger,
}
use arena_core.Finance.Repository.{
  map_row, map_optional, match_by_id, find_context, find_by_participant, find_reservation_by_key,
}
use arena_core.Finance.Writes.{put_rows, insert_row, new_row, persisted, create}
use arena_core.Finance.Entries.{
  ReserveEntryInput, policy, entry_posting, reserve_new, replay_entry, reserve_unkeyed,
  reserve_entry,
}
use arena_core.Finance.Refunds.{
  AdminRefundInput, operational_recovery, refund_match, reconcile_entries,
}
use arena_core.Finance.Settlements.{SettleInput}
use arena_core.Backing.Invariant.{IsBacked}
use arena_core.Backing.Refusals.{IsFree, reserve_entry-IsFree, refund_match-RefundsNone}
use arena_core.Backing.Reconciliation.{of_match, reconcile_entries-consistent}
use arena_core.Backing.History.{
  empty_store, FinanceReached, tables_created, later, user_registered, points_posted,
  matches_changed, entry_reserved, FinanceReached-IsBacked,
}
use arena_core.Examples.Setting.{counting, one_user, issue_500}
use arena_core.Examples.Postings.{after_issue, issued}
use arena_core.Finance.Requirement.{json_object, no_member}

abbrev open_match : MatchRow
open_match = record {
  match_id = 3;
  match_status = created;
  ruleset_configuration = json_object no_member;
  ready_deadline_at = 100000;
  participants =
      record { participant_id = 31; side = 0; user_id = 7 }
      ∷ record { participant_id = 32; side = 1; user_id = 8 }
      ∷ [];
  completed_at = none;
  settlement_eligible_at = none;
  result = none;
  disputes = [];
}

abbrev funded : FinanceStore
funded = record {
  ledger = after_issue;
  matches = open_match ∷ [];
  reservations = [];
  settlements = [];
}

abbrev entering : ReserveEntryInput
entering = record { match_id = 3; user_id = 7; idempotency_key = codes "enter-0001" }

abbrev store_of : {E A : Type 0} → Outcome E (A × FinanceStore) → FinanceStore
store_of (ok (a, s)) = s
store_of (throw e) = empty_store

abbrev entered : FinanceStore
entered = store_of (reserve_entry counting 51 2000 entering funded)

abbrev free_entry : ReservationView
free_entry = record {
  match_id = 3;
  status = not_required;
  amount = codes "0";
  reserved_at = none;
  released_at = none;
  refunded_at = none;
}

entry_accepted : reserve_entry counting 51 2000 entering funded ≡ ok (free_entry, entered)
unfolding after or_throw throw_if wallet_of_user account_by_id user_account account_by_key
    transaction_by_key reversed_by update_row breaks_unique_key update_balance_if balance_of
    increment_balance upsert_account upsert_wallet account_checks in_bigint owner_type_check
    transaction_checks key_format_check fingerprint_check reference_check reversal_check
    status_check note_fits entry_checks create_transaction digits_value serialize_wallet_amount
    entry number_from finance_row active_with reserve property is_entry_amount checked_entry
    amount_of_entry parse_entry parse_requirement to_reservation_view reservation_fingerprint
    satisfies_checks required_fields_check status_checks settlement_state_check with_ledger map_row
    map_optional match_by_id find_context find_by_participant find_reservation_by_key put_rows
    insert_row new_row persisted create policy entry_posting reserve_new replay_entry
    reserve_unkeyed reserve_entry text_eq arena_core.Prelude.Int.◌+ℤ◌ arena_core.Prelude.Int.◌-ℤ◌
    post rethrown post_new ensure_accounts system_account checked next_balance covers set_balance
    posting_row sort_by_account insert_by_account create_audit_event map_transaction
    entry_on_user_account owner_of_entry
entry_accepted = refl

-- The states that the calls go through.
registered_store : FinanceReached counting (record empty_store { ledger = one_user })
registered_store = later (later tables_created (user_registered 1)) (user_registered 7)

funded-FinanceReached : FinanceReached counting funded
funded-FinanceReached =
    later (later registered_store (points_posted issue_500 issued))
      (matches_changed (open_match ∷ []))

entered-FinanceReached : FinanceReached counting entered
entered-FinanceReached =
    later funded-FinanceReached (entry_reserved 51 2000 entering entry_accepted)

entered-IsBacked : IsBacked entered
entered-IsBacked = FinanceReached-IsBacked entered-FinanceReached

-- `Backing.Refusals.reserve_entry-IsFree` for the entry.
reserve_entry-IsFree_example :
    Ensures (λ _ t. IsFree funded t) (reserve_entry counting 51 2000 entering funded)
reserve_entry-IsFree_example = reserve_entry-IsFree counting 51 2000 entering funded

abbrev recovery : AdminRefundInput
recovery = record {
  match_id = 3;
  actor_user_id = 1;
  idempotency_key = codes "refund-0001";
  reason_code = operational_recovery;
  limit = none;
}

-- `Backing.Refusals.refund_match-RefundsNone` for the entry.
refund_match-RefundsNone_example :
    Ensures (λ views t. (views ≡ []) × (t ≡ entered)) (refund_match counting 3000 recovery entered)
refund_match-RefundsNone_example = refund_match-RefundsNone counting 3000 recovery entered

abbrev settling_3 : SettleInput
settling_3 = record { match_id = 3; idempotency_key = codes "settle-0001"; actor_user_id = 1 }

one_reservation : length (keep (of_match 3) entered.reservations) ≡ 1
unfolding after or_throw throw_if wallet_of_user account_by_id user_account account_by_key
    transaction_by_key reversed_by update_row breaks_unique_key update_balance_if balance_of
    increment_balance upsert_account upsert_wallet account_checks in_bigint owner_type_check
    transaction_checks key_format_check fingerprint_check reference_check reversal_check
    status_check note_fits entry_checks create_transaction digits_value serialize_wallet_amount
    entry number_from finance_row active_with reserve property is_entry_amount checked_entry
    amount_of_entry parse_entry parse_requirement to_reservation_view reservation_fingerprint
    satisfies_checks required_fields_check status_checks settlement_state_check with_ledger map_row
    map_optional match_by_id find_context find_by_participant find_reservation_by_key put_rows
    insert_row new_row persisted create policy entry_posting reserve_new replay_entry
    reserve_unkeyed reserve_entry text_eq arena_core.Prelude.Int.◌+ℤ◌ arena_core.Prelude.Int.◌-ℤ◌
    post rethrown post_new ensure_accounts system_account checked next_balance covers set_balance
    posting_row sort_by_account insert_by_account create_audit_event map_transaction
    entry_on_user_account owner_of_entry
one_reservation = refl

few_reservations : length (keep (of_match 3) entered.reservations) ≤ 100
few_reservations = rw one_reservation (omega arith)

-- `Backing.Reconciliation.reconcile_entries-consistent` for the match.
reconcile_entries-consistent_example :
    reconcile_entries 3 entered
    ≡ ok (
      record {
        consistent = true;
        escrow_balance = get_escrow_balance 3 entered.ledger;
        expected_balance = get_escrow_balance 3 entered.ledger;
        difference = pos 0;
        reservation_count = length (keep (of_match 3) entered.reservations);
      },
      entered,
    )
reconcile_entries-consistent_example =
    reconcile_entries-consistent 3 entered entered-IsBacked few_reservations
