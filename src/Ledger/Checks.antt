-- ===== src/Ledger/Checks.antt =====
-- The CHECK constraints of the ledger tables, the range of their BIGINT columns, and the foreign key of
-- a transaction's actor (packages/database/prisma/migrations/20260727100000_create_wallet_ledger/
-- migration.sql). No later migration drops one of them. Left out: the checks on
-- the asset, on versions and on the closing of accounts, which every row that the code writes meets, and
-- the trigger that wants the entries of a transaction balanced when it commits.
use arena_core.Prelude.{
  ℕ, Bool, true, false, not, ◌&&◌, ◌||◌, Option, none, some, List, [], ◌∷◌, Text, ltb, leb, ◌==◌,
  if◌then◌else◌, length, all, contains, is_some,
}
use arena_core.Prelude.Int.{ℤ, pos, negsuc, leb_ℤ}
use arena_core.Ledger.Types.{
  LedgerAccountType, user_available, system_issuance, system_adjustment, match_escrow,
  LedgerReferenceType, system_issuance_reference, admin_adjustment_reference, match_entry_reference,
  match_entry_refund_reference, match_settlement_reference, SystemKey, LedgerAccount, LedgerEntry,
  LedgerTransaction, LedgerTransactionType, LedgerTransactionStatus, posted, is_reversal,
}

-- A signed number of 64 bits.
unfoldable pub in_bigint : ℤ → Bool
in_bigint v = leb_ℤ (negsuc 9223372036854775807) v && leb_ℤ v (pos 9223372036854775807)

-- `ledger_accounts_owner_type_check`: it admits no account of the type MATCH_ESCROW.
unfoldable pub owner_type_check : LedgerAccountType → Option ℕ → Option SystemKey → ℤ → Bool
owner_type_check user_available wallet key balance =
    is_some wallet && not (is_some key) && leb_ℤ (pos 0) balance
owner_type_check system_issuance wallet key balance = not (is_some wallet) && is_some key
owner_type_check system_adjustment wallet key balance = not (is_some wallet) && is_some key
owner_type_check match_escrow wallet key balance = false

unfoldable pub account_checks : LedgerAccount → Bool
account_checks a =
    in_bigint a.current_balance
    && owner_type_check a.type a.wallet_id a.system_key a.current_balance

-- `ledger_entries_amount_positive_check` and `ledger_entries_sequence_check`.
unfoldable pub entry_checks : LedgerEntry → Bool
entry_checks e =
    (leb_ℤ (pos 1) e.amount && in_bigint e.amount)
    && (in_bigint e.balance_after && ltb 0 e.sequence)

-- `ledger_transactions_reference_check`: 'ADMIN_ADJUSTMENT', 'SYSTEM_ISSUANCE' or 'MANUAL_TEST'.
unfoldable pub reference_check : LedgerReferenceType → Bool
reference_check system_issuance_reference = true
reference_check admin_adjustment_reference = true
reference_check match_entry_reference = false
reference_check match_entry_refund_reference = false
reference_check match_settlement_reference = false

abbrev is_number : ℕ → Bool
is_number c = leb 48 c && leb c 57

abbrev is_alphanumeric : ℕ → Bool
is_alphanumeric c = is_number c || (leb 65 c && leb c 90) || (leb 97 c && leb c 122)

-- `[A-Za-z0-9._:-]`.
abbrev is_key_character : ℕ → Bool
is_key_character c = is_alphanumeric c || c == 46 || c == 95 || c == 58 || c == 45

-- `ledger_transactions_idempotency_format_check`.
unfoldable pub key_format_check : Text → Bool
key_format_check [] = false
key_format_check (c ∷ key) =
    is_alphanumeric c && all is_key_character key && (leb 7 (length key) && leb (length key) 127)

-- `ledger_transactions_fingerprint_check`.
unfoldable pub fingerprint_check : Text → Bool
fingerprint_check text = length text == 64 && all (λ c. is_number c || (leb 97 c && leb c 102)) text

-- `ledger_transactions_reversal_check` and `ledger_transactions_status_check`.
unfoldable pub reversal_check : LedgerTransactionType → Option ℕ → Bool
reversal_check type reverses = if is_reversal type then is_some reverses else not (is_some reverses)

unfoldable pub status_check : LedgerTransactionStatus → Option ℕ → Bool
status_check posted reversed_at = not (is_some reversed_at)
status_check _ reversed_at = is_some reversed_at

-- `VARCHAR(500)`.
unfoldable pub note_fits : Option Text → Bool
note_fits none = true
note_fits (some note) = leb (length note) 500

-- A new transaction of a user that the table `users` holds, with its entries.
unfoldable pub transaction_checks : List ℕ → LedgerTransaction → Bool
transaction_checks users t =
    (key_format_check t.idempotency_key && fingerprint_check t.request_fingerprint)
    && (reference_check t.reference_type && reversal_check t.type t.reverses_transaction_id)
    && (status_check t.status t.reversed_at && note_fits t.internal_note)
    && (contains users t.created_by_user_id && all entry_checks t.entries)
