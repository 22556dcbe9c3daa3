-- ===== src/Examples/Requests.antt =====
-- Requests to the service of the wallet.
use arena_core.Prelude.{none, codes}
use arena_core.Prelude.Int.{pos}
use arena_core.Prelude.Outcome.{Ensures}
use arena_core.Ledger.{credit, foundation_test}
use arena_core.Wallet.Service.{PostRequest, ReverseRequest, issuing, post_request, reverse_request}
use arena_core.Books.Services.{
  IsPosted, IsReversed, post_request-IsPosted, reverse_request-IsReversed,
}
use arena_core.Examples.Setting.{counting}
use arena_core.Examples.Postings.{after_issue}

abbrev grant : PostRequest
grant = record {
  user_id = 7;
  actor_user_id = 1;
  operation = issuing;
  direction = credit;
  amount = pos 50;
  idempotency_key = codes "grant-0001";
  reason_code = foundation_test;
  note = none;
}

abbrev take_back : ReverseRequest
take_back = record {
  transaction_id = 1;
  actor_user_id = 1;
  idempotency_key = codes "takeback-0001";
  reason_code = foundation_test;
  note = none;
}

-- `Books.Services.post_request-IsPosted` for an issuance.
post_request-IsPosted_example :
    Ensures
      (IsPosted counting grant 5000 after_issue)
      (post_request counting grant 5000 after_issue)
post_request-IsPosted_example = post_request-IsPosted counting grant 5000 after_issue

-- `Books.Services.reverse_request-IsReversed` for the first issuance.
reverse_request-IsReversed_example :
    Ensures
      (IsReversed counting take_back 6000 after_issue)
      (reverse_request counting take_back 6000 after_issue)
reverse_request-IsReversed_example = reverse_request-IsReversed counting take_back 6000 after_issue
