-- ===== src/Wallet/Fingerprint.antt =====
-- `requestFingerprint` (packages/wallet/src/domain/wallet-policies.ts).
use arena_core.Prelude.{ℕ, Option, none, some, [], ◌∷◌, Text, codes, join}
use arena_core.Prelude.Int.{ℤ}
use arena_core.Ledger.{
  LedgerDirection, debit, credit, AdjustmentReason, foundation_test, promotional_grant,
  operational_correction, other, Platform,
}
use arena_core.Wallet.Amount.{serialize_wallet_amount}

-- The `operation` of a fingerprint: 'ISSUANCE', 'ADMIN_ADJUSTMENT' or 'REVERSAL'.
pub data WalletOperation : Type 0 where
  issue adjust reverse : WalletOperation

abbrev pub operation_text : WalletOperation → Text
operation_text issue = codes "ISSUANCE"
operation_text adjust = codes "ADMIN_ADJUSTMENT"
operation_text reverse = codes "REVERSAL"

abbrev pub direction_text : LedgerDirection → Text
direction_text debit = codes "DEBIT"
direction_text credit = codes "CREDIT"

abbrev pub reason_text : AdjustmentReason → Text
reason_text foundation_test = codes "FOUNDATION_TEST"
reason_text promotional_grant = codes "PROMOTIONAL_GRANT"
reason_text operational_correction = codes "OPERATIONAL_CORRECTION"
reason_text other = codes "OTHER"

abbrev original_text : Platform → Option ℕ → Text
original_text g none = []
original_text g (some id) = g.uuid_text id

unfoldable pub request_fingerprint :
    Platform → WalletOperation → ℕ → LedgerDirection → ℤ → AdjustmentReason → Option ℕ → Text
request_fingerprint g operation user_id direction amount reason_code original_id = g.sha256 (
    join (codes "\n") (
      operation_text operation
      ∷ g.uuid_text user_id
      ∷ direction_text direction
      ∷ serialize_wallet_amount amount
      ∷ reason_text reason_code
      ∷ original_text g original_id
      ∷ []))
