-- ===== src/Finance/Adapter.antt =====
-- The ledger adapters of the match finance package: `reserve` and `refund`
-- (packages/match-finance/src/infrastructure/wallet-ledger-adapter.ts) and `postSettlement`
-- (packages/match-finance/src/infrastructure/prisma-match-settlement-ledger-adapter.ts).
use arena_core.Prelude.{
  ℕ, Bool, true, false, not, ◌&&◌, ◌||◌, Option, none, some, List, [], ◌∷◌, Text, codes, ◌==◌,
  if◌then◌else◌, any, opt_eq, is_some,
}
use arena_core.Prelude.Int.{ℤ, pos, ◌+ℤ◌, ◌-ℤ◌, leb_ℤ, eqb_ℤ}
use arena_core.Prelude.Outcome.{pure, throw_if, or_throw, ◌>>=◌, ◌>>◌}
use arena_core.Ledger.{
  debit, credit, LedgerTransactionType, match_entry_reservation, match_entry_refund,
  match_winner_settlement, match_draw_refund, match_void_refund, posted, match_escrow,
  match_escrow_key, LedgerReferenceType, match_entry_reference, match_entry_refund_reference,
  match_settlement_reference, LedgerAccount, LedgerEntry, LedgerTransaction, Ledger, is_active,
  is_match_escrow, Platform, coded, LedgerTx, user_account, account_by_key, upsert_wallet,
  upsert_account, user_account_row, system_account_row, update_balance_if, balance_of,
  increment_balance, create_transaction,
}
use arena_core.Wallet.Posting.{entry}
use arena_core.Wallet.Repository.{number_from}
use arena_core.Finance.Types.{
  MatchFinanceErrorCode, match_entry_reservation_insufficient_balance,
  match_entry_reservation_state_invalid, match_escrow_invariant_violation,
  match_entry_reservation_refund_not_allowed, MatchSettlementErrorCode,
  match_settlement_reservation_invalid, match_settlement_escrow_mismatch,
  match_settlement_result_invalid, ReservationStatus, SettlementType, winner_takes_all, draw_refund,
  void_refund, SettlementReservation, is_reserved, is_winner_takes_all,
}

pub record ReserveLedgerInput : Type 0 where
  pub match_id : ℕ
  pub participant_id : ℕ
  pub user_id : ℕ
  pub amount : ℤ
  pub idempotency_key : Text
  pub fingerprint : Text
  pub now : ℕ

-- `RefundLedgerInput`, which extends the input of a reservation.
pub record RefundLedgerInput : Type 0 where
  pub reserve : ReserveLedgerInput
  pub open reserve use *
  pub reservation_id : ℕ
  pub actor_user_id : ℕ

pub record ReservationPosting : Type 0 where
  pub wallet_id : ℕ
  pub user_account_id : ℕ
  pub escrow_account_id : ℕ
  pub transaction_id : ℕ

-- The columns of the match reservation that `refund` reads.
pub record RefundableRow : Type 0 where
  pub ledger_account_id : Option ℕ
  pub escrow_account_id : Option ℕ
  pub status : ReservationStatus

-- The row of a transaction that the adapters create.
unfoldable pub finance_row :
    LedgerTransactionType
    → LedgerReferenceType
    → ℕ
    → Text
    → Text
    → Text
    → ℕ
    → ℕ
    → List LedgerEntry
    → ℕ
    → LedgerTransaction
finance_row type reference_type reference_id description key fingerprint actor now entries id =
    record {
      id = id;
      type = type;
      status = posted;
      idempotency_key = key;
      request_fingerprint = fingerprint;
      reference_type = reference_type;
      reference_id = some reference_id;
      description = description;
      internal_note = none;
      created_by_user_id = actor;
      reverses_transaction_id = none;
      posted_at = now;
      reversed_at = none;
      entries = number_from 1 entries;
    }

-- `{ status: 'ACTIVE', currentBalance: { gte: amount } }`, and the decrement.
unfoldable pub active_with : ℤ → LedgerAccount → Bool
active_with amount a = is_active a.status && leb_ℤ amount a.current_balance

unfoldable pub holds : ℤ → LedgerAccount → Bool
holds amount a = leb_ℤ amount a.current_balance

abbrev pub less : ℤ → LedgerAccount → ℤ
less amount a = a.current_balance -ℤ amount

-- `PrismaWalletLedgerAdapter.reserve`.
unfoldable pub reserve :
    Platform → ReserveLedgerInput → LedgerTx MatchFinanceErrorCode ReservationPosting
reserve g input = do
  wallet ← upsert_wallet g input.user_id input.now
  throw_if (not (is_active wallet.status)) (coded match_entry_reservation_state_invalid)
  account ← upsert_account g (user_account wallet.id) (user_account_row wallet.id)
  escrow ←
      upsert_account g (account_by_key (match_escrow_key input.match_id))
        (system_account_row match_escrow (match_escrow_key input.match_id))
  throw_if (not (is_match_escrow escrow.type)) (coded match_escrow_invariant_violation)
  count ← update_balance_if account.id (active_with input.amount) (less input.amount)
  throw_if (not (count == 1)) (coded match_entry_reservation_insufficient_balance)
  user_after ← balance_of account.id
  escrow_after ← increment_balance escrow.id input.amount
  transaction ← create_transaction g (
      finance_row match_entry_reservation match_entry_reference input.match_id
        (codes "Match entry reservation") input.idempotency_key input.fingerprint input.user_id
        input.now
        (entry account.id debit input.amount user_after
          ∷ entry escrow.id credit input.amount escrow_after
          ∷ []))
  pure (record {
    wallet_id = wallet.id;
    user_account_id = account.id;
    escrow_account_id = escrow.id;
    transaction_id = transaction.id;
  })

-- `PrismaWalletLedgerAdapter.refund`, with the row that it finds for the reservation.
unfoldable pub refund :
    Platform → Option RefundableRow → RefundLedgerInput → LedgerTx MatchFinanceErrorCode ℕ
refund g row input = do
  reservation ← or_throw row (coded match_entry_reservation_refund_not_allowed)
  account_id ←
      or_throw reservation.ledger_account_id (coded match_entry_reservation_refund_not_allowed)
  escrow_id ←
      or_throw reservation.escrow_account_id (coded match_entry_reservation_refund_not_allowed)
  throw_if (not (is_reserved reservation.status)) (coded match_entry_reservation_refund_not_allowed)
  count ← update_balance_if escrow_id (holds input.amount) (less input.amount)
  throw_if (not (count == 1)) (coded match_escrow_invariant_violation)
  escrow_after ← balance_of escrow_id
  user_after ← increment_balance account_id input.amount
  transaction ← create_transaction g (
      finance_row match_entry_refund match_entry_refund_reference input.reservation_id
        (codes "Match entry refund") input.idempotency_key input.fingerprint input.actor_user_id
        input.now
        (entry escrow_id debit input.amount escrow_after
          ∷ entry account_id credit input.amount user_after
          ∷ []))
  pure transaction.id

-- `reservations.reduce((sum, item) => sum + item.amount, 0n)`.
unfoldable pub total_amount : List SettlementReservation → ℤ
total_amount [] = pos 0
total_amount (r ∷ rs) = r.amount +ℤ total_amount rs

abbrev pub Recipient : Type 0
Recipient = SettlementReservation × ℤ

-- The winner's reservation with the whole escrow, or each reservation with its own amount.
unfoldable pub recipients :
    SettlementType → Option ℕ → ℤ → List SettlementReservation → List Recipient
recipients type winner total [] = []
recipients type winner total (r ∷ rs) =
    let rest = recipients type winner total rs in
    if is_winner_takes_all type
    then (if opt_eq (some r.participant_id) winner then (r, total) ∷ rest else rest)
    else (r, r.amount) ∷ rest

abbrev pub is_empty : List Recipient → Bool
is_empty [] = true
is_empty (_ ∷ _) = false

-- The loop over the recipients; the entries are numbered when the transaction is created.
unfoldable pub credit_recipients :
    List Recipient → LedgerTx MatchSettlementErrorCode (List LedgerEntry)
credit_recipients [] = pure []
credit_recipients ((r, amount) ∷ rs) = do
  account_id ← or_throw r.ledger_account_id (coded match_settlement_reservation_invalid)
  balance ← increment_balance account_id amount
  rest ← credit_recipients rs
  pure (entry account_id credit amount balance ∷ rest)

pub record PostSettlementInput : Type 0 where
  pub match_id : ℕ
  pub type : SettlementType
  pub winner_participant_id : Option ℕ
  pub reservations : List SettlementReservation
  pub idempotency_key : Text
  pub fingerprint : Text
  pub actor_user_id : ℕ
  pub now : ℕ

abbrev pub settlement_transaction_type : SettlementType → LedgerTransactionType
settlement_transaction_type winner_takes_all = match_winner_settlement
settlement_transaction_type draw_refund = match_draw_refund
settlement_transaction_type void_refund = match_void_refund

-- `{ type: 'MATCH_ESCROW', currentBalance: total }`.
unfoldable pub escrow_of : ℤ → LedgerAccount → Bool
escrow_of total a = is_match_escrow a.type && eqb_ℤ a.current_balance total

abbrev pub first_escrow : List SettlementReservation → Option ℕ
first_escrow [] = none
first_escrow (r ∷ rs) = r.escrow_account_id

abbrev pub misses_account : ℕ → SettlementReservation → Bool
misses_account escrow_id r =
    not (opt_eq r.escrow_account_id (some escrow_id)) || not (is_some r.ledger_account_id)

-- `postSettlement`.
unfoldable pub post_settlement :
    Platform → PostSettlementInput → LedgerTx MatchSettlementErrorCode ℕ
post_settlement g input = do
  escrow_id ←
      or_throw (first_escrow input.reservations) (coded match_settlement_reservation_invalid)
  throw_if (any (misses_account escrow_id) input.reservations)
      (coded match_settlement_reservation_invalid)
  count ←
      update_balance_if escrow_id (escrow_of (total_amount input.reservations))
        (less (total_amount input.reservations))
  throw_if (not (count == 1)) (coded match_settlement_escrow_mismatch)
  escrow_after ← balance_of escrow_id
  let paid =
      recipients input.type input.winner_participant_id (total_amount input.reservations)
        input.reservations
  throw_if (is_empty paid) (coded match_settlement_result_invalid)
  credits ← credit_recipients paid
  transaction ← create_transaction g (
      finance_row (settlement_transaction_type input.type) match_settlement_reference input.match_id
        (codes "Non-monetary match settlement") input.idempotency_key input.fingerprint
        input.actor_user_id input.now
        (entry escrow_id debit (total_amount input.reservations) escrow_after ∷ credits))
  pure transaction.id

-- `getEscrowBalance`, and the balance that `reconcileMatchEscrow` compares.
unfoldable pub get_escrow_balance : ℕ → Ledger → ℤ
get_escrow_balance match_id l = elim (account_by_key (match_escrow_key match_id) l) [
  | none ↦ pos 0
  | some a ↦ a.current_balance
]
