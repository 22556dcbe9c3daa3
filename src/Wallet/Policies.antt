-- ===== src/Wallet/Policies.antt =====
-- packages/wallet/src/domain: the error codes, the policies on balances, statuses, keys and
-- reasons, and the fingerprint of a request.
use arena_core.Prelude.{
  ℕ, Bool, true, false, not, ◌&&◌, ◌||◌, Option, none, some, List, [], ◌∷◌, Text, ltb, leb, ◌==◌,
  if◌then◌else◌, length, all,
}
use arena_core.Prelude.Int.{ℤ, pos, ◌+ℤ◌, ◌-ℤ◌, ltb_ℤ, leb_ℤ, eqb_ℤ}
use arena_core.Prelude.Outcome.{Outcome, ok, throw}
use arena_core.Ledger.{
  LedgerDirection, LedgerEntry, WalletStatus, AdjustmentReason, other, is_credit, is_suspended,
  is_closed, Failure, coded,
}

pub data WalletErrorCode : Type 0 where
  wallet_not_found wallet_service_unavailable wallet_suspended wallet_closed : WalletErrorCode
  wallet_amount_invalid wallet_insufficient_balance wallet_idempotency_conflict : WalletErrorCode
  wallet_transaction_not_found wallet_transaction_already_reversed : WalletErrorCode
  wallet_transaction_not_reversible wallet_ledger_invariant_violation : WalletErrorCode
  wallet_reconciliation_mismatch wallet_permission_denied : WalletErrorCode
  wallet_persistence_failure : WalletErrorCode

abbrev pub WalletError : Type 0
WalletError = Failure WalletErrorCode

abbrev pub Checked : Type 0 → Type 0
Checked A = Outcome WalletError A

-- `nextBalance`: the balance after an entry, which may not fall below 0 on a user's account.
unfoldable pub next_balance : ℤ → LedgerDirection → ℤ → Bool → Checked ℤ
next_balance current direction amount user_account =
    let next = if is_credit direction then current +ℤ amount else current -ℤ amount in
    if leb_ℤ amount (pos 0)
    then throw (coded wallet_amount_invalid)
    else if user_account && ltb_ℤ next (pos 0)
    then throw (coded wallet_insufficient_balance)
    else ok next

-- The `filter` and `reduce` of `assertBalanced`: the sum of the entries of one direction.
unfoldable pub side_total : Bool → List LedgerEntry → ℤ
side_total credits [] = pos 0
side_total true (e ∷ es) =
    let rest = side_total true es in if is_credit e.direction then e.amount +ℤ rest else rest
side_total false (e ∷ es) =
    let rest = side_total false es in if is_credit e.direction then rest else e.amount +ℤ rest

unfoldable pub assert_balanced : List LedgerEntry → Checked (Unit {0})
assert_balanced entries =
    let debits = side_total false entries in
    let credits = side_total true entries in
    if ltb (length entries) 2
    then throw (coded wallet_ledger_invariant_violation)
    else if not (eqb_ℤ debits credits) || leb_ℤ debits (pos 0)
    then throw (coded wallet_ledger_invariant_violation)
    else ok tt

unfoldable pub assert_wallet_writable : WalletStatus → Checked (Unit {0})
assert_wallet_writable status =
    if is_suspended status
    then throw (coded wallet_suspended)
    else if is_closed status
    then throw (coded wallet_closed)
    else ok tt

abbrev is_digit : ℕ → Bool
is_digit c = leb b'0' c && leb c b'9'

abbrev is_letter : ℕ → Bool
is_letter c = leb b'A' c && leb c b'Z' || leb b'a' c && leb c b'z'

-- `[A-Za-z0-9]` and `[A-Za-z0-9._:-]`.
abbrev is_key_head : ℕ → Bool
is_key_head c = is_letter c || is_digit c

abbrev is_key_char : ℕ → Bool
is_key_char c = is_key_head c || c == b'.' || c == b'_' || c == b':' || c == b'-'

-- `/^[A-Za-z0-9][A-Za-z0-9._:-]{7,127}$/`.
unfoldable pub is_idempotency_key : Text → Bool
is_idempotency_key [] = false
is_idempotency_key (c ∷ cs) =
    is_key_head c && all is_key_char cs && leb 7 (length cs) && leb (length cs) 127

unfoldable pub validate_idempotency_key : Text → Checked Text
validate_idempotency_key value =
    if is_idempotency_key value then ok value else throw (coded wallet_idempotency_conflict)

-- The white space and line ends that `trim` takes off.
abbrev pub is_space : ℕ → Bool
is_space c =
    leb 9 c && leb c 13
    || c == 32
    || c == 160
    || c == 0x1680
    || leb 0x2000 c && leb c 0x200a
    || c == 0x2028
    || c == 0x2029
    || c == 0x202f
    || c == 0x205f
    || c == 0x3000
    || c == 0xfeff

-- `!note?.trim()`.
unfoldable pub is_blank : Option Text → Bool
is_blank none = true
is_blank (some s) = all is_space s

abbrev is_other : AdjustmentReason → Bool
is_other other = true
is_other _ = false

abbrev too_long : Option Text → Bool
too_long none = false
too_long (some s) = ltb 500 (length s)

-- `validateReason`; the type of the reason code leaves no value outside the list.
unfoldable pub validate_reason : AdjustmentReason → Option Text → Checked (Unit {0})
unfolding is_blank
validate_reason reason_code note =
    if is_other reason_code && is_blank note || too_long note
    then throw (coded wallet_ledger_invariant_violation)
    else ok tt
