-- ===== src/Finance/Types.antt =====
-- The data of packages/match-finance/src/domain and of its ports: statuses, reservations,
-- settlements, contexts and error codes.
use arena_core.Prelude.{ℕ, Bool, true, false, Option, List, Text}
use arena_core.Prelude.Int.{ℤ}
use arena_core.Ledger.{Failure}

pub data MatchFinanceErrorCode : Type 0 where
  match_entry_not_required match_entry_reservation_not_found : MatchFinanceErrorCode
  match_entry_reservation_already_exists : MatchFinanceErrorCode
  match_entry_reservation_insufficient_balance : MatchFinanceErrorCode
  match_entry_reservation_expired match_entry_reservation_state_invalid : MatchFinanceErrorCode
  match_entry_reservation_match_invalid : MatchFinanceErrorCode
  match_entry_reservation_participant_invalid : MatchFinanceErrorCode
  match_entry_reservation_idempotency_conflict : MatchFinanceErrorCode
  match_entry_reservation_refund_not_allowed : MatchFinanceErrorCode
  match_entry_reservation_release_not_allowed : MatchFinanceErrorCode
  match_escrow_invariant_violation match_finance_service_unavailable : MatchFinanceErrorCode
  match_finance_persistence_failure : MatchFinanceErrorCode

pub data MatchSettlementErrorCode : Type 0 where
  match_settlement_not_found match_settlement_already_exists : MatchSettlementErrorCode
  match_settlement_not_eligible match_settlement_delay_not_elapsed : MatchSettlementErrorCode
  match_settlement_active_dispute match_settlement_result_invalid : MatchSettlementErrorCode
  match_settlement_reservation_invalid match_settlement_escrow_mismatch : MatchSettlementErrorCode
  match_settlement_idempotency_conflict match_settlement_already_final : MatchSettlementErrorCode
  match_settlement_service_unavailable : MatchSettlementErrorCode
  match_settlement_persistence_failure : MatchSettlementErrorCode

abbrev pub FinanceError : Type 0
FinanceError = Failure MatchFinanceErrorCode

abbrev pub SettlementError : Type 0
SettlementError = Failure MatchSettlementErrorCode

-- `MatchEntryReservationStatus`.
pub data ReservationStatus : Type 0 where
  not_required reserved released refunded cancelled expired failed settled : ReservationStatus

-- `MatchFinanceMatchStatus`.
pub data MatchStatus : Type 0 where
  created awaiting_ready ready in_progress awaiting_result result_conflict : MatchStatus
  completed match_cancelled match_expired voided : MatchStatus

pub data ResultStatus : Type 0 where
  confirmed conflict admin_resolved result_voided : ResultStatus

pub data DisputeStatus : Type 0 where
  open_dispute awaiting_response under_review resolved rejected : DisputeStatus
  dispute_cancelled dispute_expired : DisputeStatus

-- `MatchSettlementType`; no code writes an 'ADMIN_CORRECTION'.
pub data SettlementType : Type 0 where
  winner_takes_all draw_refund void_refund : SettlementType

pub data SettlementStatus : Type 0 where
  settlement_pending settlement_settled settlement_refunded : SettlementStatus
  settlement_voided settlement_failed : SettlementStatus

-- `MatchEntrySettlementOutcome`.
pub data SettlementOutcome : Type 0 where
  winner_credited loser_contributed draw_refunded void_refunded : SettlementOutcome

-- `MatchSettlementIneligibilityReason`.
pub data Reason : Type 0 where
  match_not_final match_void_state_invalid result_not_final active_dispute_exists : Reason
  settlement_already_exists settlement_delay_not_elapsed reservation_not_released : Reason
  reservation_already_refunded escrow_balance_mismatch winner_not_participant : Reason
  participant_count_invalid asset_mismatch : Reason

-- `MatchSettlementReservation`.
pub record SettlementReservation : Type 0 where
  pub id : ℕ
  pub participant_id : ℕ
  pub user_id : ℕ
  pub ledger_account_id : Option ℕ
  pub escrow_account_id : Option ℕ
  pub asset_code : Text
  pub amount : ℤ
  pub status : ReservationStatus

-- `MatchSettlementContext`.
pub record SettlementContext : Type 0 where
  pub match_id : ℕ
  pub match_status : MatchStatus
  pub completed_at : Option ℕ
  pub settlement_eligible_at : Option ℕ
  pub result_id : Option ℕ
  pub result_status : Option ResultStatus
  pub result_version : Option ℕ
  pub winner_participant_id : Option ℕ
  pub is_draw : Bool
  pub terminal_dispute_id : Option ℕ
  pub terminal_dispute_resolved_at : Option ℕ
  pub active_dispute : Bool
  pub reservations : List SettlementReservation
  pub escrow_balance : ℤ
  pub settlement_exists : Bool

pub record SettlementEligibility : Type 0 where
  pub eligible : Bool
  pub type : Option SettlementType
  pub reasons : List Reason

-- `MatchSettlementRecord`.
pub record SettlementRecord : Type 0 where
  pub id : ℕ
  pub match_id : ℕ
  pub status : SettlementStatus
  pub type : SettlementType
  pub total_escrow_amount : ℤ
  pub distributed_amount : ℤ
  pub refunded_amount : ℤ
  pub retained_amount : ℤ
  pub winner_participant_id : Option ℕ
  pub result_id : Option ℕ
  pub dispute_id : Option ℕ
  pub idempotency_key : Text
  pub request_fingerprint : Text
  pub settlement_transaction_id : Option ℕ
  pub settled_at : Option ℕ

-- The tests `=== 'X'` and `[…].includes(…)` on the enumerations.
abbrev pub is_released : ReservationStatus → Bool
is_released released = true
is_released _ = false

abbrev pub is_reserved : ReservationStatus → Bool
is_reserved reserved = true
is_reserved _ = false

abbrev pub is_refunded : ReservationStatus → Bool
is_refunded refunded = true
is_refunded _ = false

abbrev pub is_voided : MatchStatus → Bool
is_voided voided = true
is_voided _ = false

abbrev pub is_completed : MatchStatus → Bool
is_completed completed = true
is_completed _ = false

abbrev pub is_admin_resolved : Option ResultStatus → Bool
is_admin_resolved (Option.some admin_resolved) = true
is_admin_resolved _ = false

abbrev pub is_final_result : Option ResultStatus → Bool
is_final_result (Option.some confirmed) = true
is_final_result (Option.some admin_resolved) = true
is_final_result _ = false

abbrev pub is_winner_takes_all : SettlementType → Bool
is_winner_takes_all winner_takes_all = true
is_winner_takes_all _ = false
