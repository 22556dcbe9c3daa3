-- ===== src/Examples/Refused.antt =====
-- A match entry of 100 points for a user who has them: the ledger refuses to reserve it, to refund it and
-- to pay it out.
use arena_core.Prelude.{some, [], ◌∷◌, codes}
use arena_core.Prelude.Int.{pos}
use arena_core.Finance.Types.{released, reserved, winner_takes_all, SettlementReservation}
use arena_core.Finance.Adapter.{
  ReserveLedgerInput, RefundLedgerInput, RefundableRow, PostSettlementInput, reserve, refund,
  post_settlement,
}
use arena_core.Backing.Refusals.{Throws, reserve-Throws, refund-Throws, post_settlement-Throws}
use arena_core.Examples.Setting.{counting, digest}
use arena_core.Examples.Postings.{after_issue}

abbrev entry_fee : ReserveLedgerInput
entry_fee = record {
  match_id = 3;
  participant_id = 5;
  user_id = 7;
  amount = pos 100;
  idempotency_key = codes "reserve-0001";
  fingerprint = digest;
  now = 3000;
}

-- `Backing.Refusals.reserve-Throws` for an entry that the balance covers.
reserve-Throws_example : Throws (reserve counting entry_fee after_issue)
reserve-Throws_example = reserve-Throws counting entry_fee after_issue

abbrev refundable : RefundableRow
refundable = record { ledger_account_id = some 1; escrow_account_id = some 4; status = reserved }

abbrev refund_request : RefundLedgerInput
refund_request = record {
  reserve = record entry_fee { idempotency_key = codes "refund-00001" };
  reservation_id = 9;
  actor_user_id = 1;
}

-- `Backing.Refusals.refund-Throws` for a reserved entry.
refund-Throws_example : Throws (refund counting (some refundable) refund_request after_issue)
refund-Throws_example = refund-Throws counting (some refundable) refund_request after_issue

abbrev their_reservation : SettlementReservation
their_reservation = record {
  id = 9;
  participant_id = 5;
  user_id = 7;
  ledger_account_id = some 1;
  escrow_account_id = some 4;
  asset_code = codes "ARENA_POINT";
  amount = pos 100;
  status = released;
}

abbrev settlement : PostSettlementInput
settlement = record {
  match_id = 3;
  type = winner_takes_all;
  winner_participant_id = some 5;
  reservations = their_reservation ∷ [];
  idempotency_key = codes "settle-00001";
  fingerprint = digest;
  actor_user_id = 1;
  now = 4000;
}

-- `Backing.Refusals.post_settlement-Throws` for the winner of the entry.
post_settlement-Throws_example : Throws (post_settlement counting settlement after_issue)
post_settlement-Throws_example = post_settlement-Throws counting settlement after_issue
