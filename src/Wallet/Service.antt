-- ===== src/Wallet/Service.antt =====
-- `WalletLedgerService` (packages/wallet/src/application/wallet-ledger-service.ts) and the operations
-- of `AdminWalletService` (packages/wallet/src/application/admin-wallet-service.ts) that change the
-- ledger. Each call of the repository is a transaction of its own; `now` is what the clock says.
use arena_core.Prelude.{
  ℕ, ◌≡◌, refl, Bool, true, false, not, ◌&&◌, ◌||◌, Option, none, some, Text, text_eq, is_some,
}
use arena_core.Prelude.Int.{ℤ, pos, leb_ℤ}
use arena_core.Prelude.Outcome.{throw_if, or_throw, pure, ◌>>=◌, ◌>>◌}
use arena_core.Ledger.{
  LedgerDirection, credit, LedgerTransactionType, issuance, admin_adjustment, AdjustmentReason,
  is_credit, is_posted, is_reversal, opposite, Platform, coded,
}
use arena_core.Wallet.Policies.{
  validate_idempotency_key, validate_reason, wallet_amount_invalid,
  wallet_ledger_invariant_violation, wallet_idempotency_conflict, wallet_transaction_not_found,
  wallet_transaction_not_reversible, wallet_transaction_already_reversed,
}
use arena_core.Wallet.Fingerprint.{WalletOperation, request_fingerprint}
use arena_core.Wallet.Repository.{
  WalletTx, PostedTransaction, checked, find_by_idempotency_key, find_transaction,
}
use arena_core.Wallet.Posting.{post, reverse}

-- The two operations that post: 'ISSUANCE' and 'ADMIN_ADJUSTMENT'.
pub data PostingOperation : Type 0 where
  issuing adjusting : PostingOperation

abbrev pub is_issuing : PostingOperation → Bool
is_issuing issuing = true
is_issuing adjusting = false

abbrev pub type_of : PostingOperation → LedgerTransactionType
type_of issuing = issuance
type_of adjusting = admin_adjustment

pub posts : (operation : PostingOperation) → is_reversal (type_of operation) ≡ false
posts issuing = refl
posts adjusting = refl

abbrev operation_of : PostingOperation → WalletOperation
operation_of issuing = WalletOperation.issue
operation_of adjusting = WalletOperation.adjust

pub record PostRequest : Type 0 where
  pub user_id : ℕ
  pub actor_user_id : ℕ
  pub operation : PostingOperation
  pub direction : LedgerDirection
  pub amount : ℤ
  pub idempotency_key : Text
  pub reason_code : AdjustmentReason
  pub note : Option Text

pub record ReverseRequest : Type 0 where
  pub transaction_id : ℕ
  pub actor_user_id : ℕ
  pub idempotency_key : Text
  pub reason_code : AdjustmentReason
  pub note : Option Text

-- The stored transaction of a repeated key, if the request is the same; else `otherwise`.
unfoldable pub answer_existing :
    Text → Option PostedTransaction → WalletTx PostedTransaction → WalletTx PostedTransaction
answer_existing fingerprint none otherwise = otherwise
answer_existing fingerprint (some existing) otherwise = do
  throw_if (not (text_eq existing.fingerprint fingerprint)) (coded wallet_idempotency_conflict)
  pure existing

abbrev pub fingerprint_of : Platform → PostRequest → Text
fingerprint_of g input =
    request_fingerprint g (operation_of input.operation) input.user_id input.direction input.amount
      input.reason_code none

-- `WalletLedgerService.post`.
unfoldable pub post_request : Platform → PostRequest → ℕ → WalletTx PostedTransaction
post_request g input now = do
  key ← checked (validate_idempotency_key input.idempotency_key)
  valid ← checked (validate_reason input.reason_code input.note)
  throw_if (leb_ℤ input.amount (pos 0)) (coded wallet_amount_invalid)
  throw_if (is_issuing input.operation && not (is_credit input.direction))
      (coded wallet_ledger_invariant_violation)
  existing ← find_by_idempotency_key input.idempotency_key
  answer_existing (fingerprint_of g input) existing (
      post g (record {
        user_id = input.user_id;
        actor_user_id = input.actor_user_id;
        type = type_of input.operation;
        excludes_reversal = posts input.operation;
        direction = input.direction;
        amount = input.amount;
        idempotency_key = input.idempotency_key;
        fingerprint = fingerprint_of g input;
        reason_code = input.reason_code;
        note = input.note;
        now = now;
      }))

abbrev pub reversal_fingerprint : Platform → ReverseRequest → PostedTransaction → Text
reversal_fingerprint g input original =
    request_fingerprint g WalletOperation.reverse original.user_id (opposite original.direction)
      original.amount input.reason_code (some original.id)

-- `WalletLedgerService.reverse`.
unfoldable pub reverse_request : Platform → ReverseRequest → ℕ → WalletTx PostedTransaction
reverse_request g input now = do
  key ← checked (validate_idempotency_key input.idempotency_key)
  valid ← checked (validate_reason input.reason_code input.note)
  found ← find_transaction input.transaction_id
  original ← or_throw found (coded wallet_transaction_not_found)
  throw_if (not (is_posted original.status) || is_reversal original.type)
      (coded wallet_transaction_not_reversible)
  throw_if (is_some original.reversed_by_id) (coded wallet_transaction_already_reversed)
  existing ← find_by_idempotency_key input.idempotency_key
  answer_existing (reversal_fingerprint g input original) existing (
      reverse g (record {
        transaction_id = input.transaction_id;
        actor_user_id = input.actor_user_id;
        idempotency_key = input.idempotency_key;
        fingerprint = reversal_fingerprint g input original;
        reason_code = input.reason_code;
        note = input.note;
        now = now;
      }))

-- `AdminWalletService.issue` and `adjust`: requests with the operation that they stand for.
unfoldable pub issue_points : Platform → PostRequest → ℕ → WalletTx PostedTransaction
issue_points g input = post_request g (record input { operation = issuing; direction = credit })

unfoldable pub adjust_balance : Platform → PostRequest → ℕ → WalletTx PostedTransaction
adjust_balance g input = post_request g (record input { operation = adjusting })

unfoldable pub reverse_posting : Platform → ReverseRequest → ℕ → WalletTx PostedTransaction
reverse_posting = reverse_request
