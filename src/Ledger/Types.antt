-- ===== src/Ledger/Types.antt =====
-- The rows of the ledger tables (packages/wallet/src/domain/wallet-types.ts and the tables that
-- packages/wallet/src/infrastructure/prisma-wallet-repository.ts selects from).
-- Identifiers are UUIDs, which are only compared: they are numbers. Dates are milliseconds.
use arena_core.Prelude.{ℕ, Bool, true, false, Option, List, Text, ◌==◌}
use arena_core.Prelude.Int.{ℤ}

pub data WalletStatus : Type 0 where
  active suspended closed : WalletStatus

pub data LedgerDirection : Type 0 where
  debit credit : LedgerDirection

pub data LedgerTransactionType : Type 0 where
  issuance admin_adjustment reversal match_entry_reservation : LedgerTransactionType
  match_entry_refund match_winner_settlement match_draw_refund : LedgerTransactionType
  match_void_refund : LedgerTransactionType

pub data LedgerTransactionStatus : Type 0 where
  posted reversed : LedgerTransactionStatus

pub data LedgerAccountType : Type 0 where
  user_available system_issuance system_adjustment match_escrow : LedgerAccountType

pub data LedgerReferenceType : Type 0 where
  system_issuance_reference admin_adjustment_reference match_entry_reference : LedgerReferenceType
  match_entry_refund_reference match_settlement_reference : LedgerReferenceType

-- `arena_point_issuance`, `arena_point_adjustment` and `match_escrow:${matchId}`.
pub data SystemKey : Type 0 where
  arena_point_issuance arena_point_adjustment : SystemKey
  match_escrow_key : ℕ → SystemKey

pub data WalletAuditAction : Type 0 where
  wallet_created points_issued balance_adjusted transaction_reversed : WalletAuditAction
  reconciliation_checked reconciliation_mismatch : WalletAuditAction

pub data AdjustmentReason : Type 0 where
  foundation_test promotional_grant operational_correction other : AdjustmentReason

-- What an audit row gives as its reason: a request's code, or one that the code writes itself.
pub data AuditReason : Type 0 where
  requested : AdjustmentReason → AuditReason
  lazy_creation manual_reconciliation : AuditReason

pub record WalletRow : Type 0 where
  pub id : ℕ
  pub user_id : ℕ
  pub status : WalletStatus
  pub updated_at : ℕ

pub record LedgerAccount : Type 0 where
  pub id : ℕ
  pub wallet_id : Option ℕ
  pub type : LedgerAccountType
  pub status : WalletStatus
  pub system_key : Option SystemKey
  pub current_balance : ℤ
  pub version : ℕ

pub record LedgerEntry : Type 0 where
  pub account_id : ℕ
  pub direction : LedgerDirection
  pub amount : ℤ
  pub balance_after : ℤ
  pub sequence : ℕ

pub record LedgerTransaction : Type 0 where
  pub id : ℕ
  pub type : LedgerTransactionType
  pub status : LedgerTransactionStatus
  pub idempotency_key : Text
  pub request_fingerprint : Text
  pub reference_type : LedgerReferenceType
  pub reference_id : Option ℕ
  pub description : Text
  pub internal_note : Option Text
  pub created_by_user_id : ℕ
  pub reverses_transaction_id : Option ℕ
  pub posted_at : ℕ
  pub reversed_at : Option ℕ
  pub entries : List LedgerEntry

pub record WalletAuditEvent : Type 0 where
  pub wallet_id : ℕ
  pub actor_user_id : ℕ
  pub action : WalletAuditAction
  pub reason_code : AuditReason
  pub transaction_id : Option ℕ
  pub note : Option Text

pub record Ledger : Type 0 where
  pub users : List ℕ
  pub wallets : List WalletRow
  pub accounts : List LedgerAccount
  pub transactions : List LedgerTransaction
  pub audit_events : List WalletAuditEvent

-- The tests `=== 'X'` on the enumerations.
abbrev pub is_active : WalletStatus → Bool
is_active active = true
is_active _ = false

abbrev pub is_closed : WalletStatus → Bool
is_closed closed = true
is_closed _ = false

abbrev pub is_suspended : WalletStatus → Bool
is_suspended suspended = true
is_suspended _ = false

abbrev pub is_credit : LedgerDirection → Bool
is_credit credit = true
is_credit debit = false

abbrev pub is_posted : LedgerTransactionStatus → Bool
is_posted posted = true
is_posted reversed = false

abbrev pub is_issuance : LedgerTransactionType → Bool
is_issuance issuance = true
is_issuance _ = false

abbrev pub is_reversal : LedgerTransactionType → Bool
is_reversal reversal = true
is_reversal _ = false

abbrev pub is_user_available : LedgerAccountType → Bool
is_user_available user_available = true
is_user_available _ = false

abbrev pub is_match_escrow : LedgerAccountType → Bool
is_match_escrow match_escrow = true
is_match_escrow _ = false

abbrev pub key_eq : SystemKey → SystemKey → Bool
key_eq arena_point_issuance arena_point_issuance = true
key_eq arena_point_adjustment arena_point_adjustment = true
key_eq (match_escrow_key m) (match_escrow_key n) = m == n
key_eq _ _ = false

-- `direction === 'CREDIT' ? 'DEBIT' : 'CREDIT'`.
abbrev pub opposite : LedgerDirection → LedgerDirection
opposite credit = debit
opposite debit = credit
