-- ===== src/Finance/Entries.antt =====
-- `MatchEntryReservationService`
-- (packages/match-finance/src/application/match-entry-reservation-service.ts) and `MatchEscrowService`
-- (packages/match-finance/src/application/match-escrow-service.ts), with the default time to live.
use arena_core.Prelude.{
  ℕ, ◌+◌, ◌*◌, Bool, true, false, not, Option, none, some, List, [], ◌∷◌, ◌++◌, map, Text, codes,
  text_eq, ◌==◌, leb, if◌then◌else◌, length,
}
use arena_core.Prelude.Int.{ℤ, pos}
use arena_core.Prelude.Outcome.{Outcome, ok, throw, pure, gets, throw_if, or_throw, ◌>>=◌, ◌>>◌}
use arena_core.Ledger.{coded, Platform}
use arena_core.Wallet.Amount.{digits_value}
use arena_core.Finance.Types.{
  MatchStatus, reserved, not_required, FinanceError, match_entry_reservation_participant_invalid,
  match_entry_reservation_match_invalid, match_entry_reservation_expired,
  match_entry_reservation_idempotency_conflict, match_entry_reservation_not_found,
  match_entry_reservation_state_invalid,
}
use arena_core.Finance.Adapter.{ReservationPosting, reserve}
use arena_core.Finance.Requirement.{EntryRequirement, parse_requirement}
use arena_core.Finance.Reservations.{
  ReservationRecord, ReservationView, to_reservation_view, reservation_fingerprint, reserving_entry,
  assert_entry_satisfied,
}
use arena_core.Finance.Store.{on_ledger}
use arena_core.Finance.Repository.{
  FinanceContext, RepositoryTx, find_context, find_by_participant, find_reservation_by_key,
  find_mine, list_mine, list_contexts, find_context_by_participant,
}
use arena_core.Finance.Writes.{CreateReservationInput, create, release_match}

pub record ReserveEntryInput : Type 0 where
  pub match_id : ℕ
  pub user_id : ℕ
  pub idempotency_key : Text

-- `ttlSeconds`.
abbrev pub ttl_seconds : ℕ
ttl_seconds = 300

-- A policy that may throw, in a transaction.
unfoldable pub policy : {A : Type 0} → Outcome FinanceError A → RepositoryTx A
policy (ok a) s = ok (a, s)
policy (throw e) s = throw e

-- `['CREATED', 'AWAITING_READY'].includes(status)`.
abbrev pub takes_entries : MatchStatus → Bool
takes_entries MatchStatus.created = true
takes_entries MatchStatus.awaiting_ready = true
takes_entries _ = false

abbrev pub minimum : ℕ → ℕ → ℕ
minimum a b = if leb a b then a else b

-- `Math.min(Math.max(limit, 1), 100)`.
abbrev pub clamped_limit : ℕ → ℕ
clamped_limit limit = minimum (if leb limit 1 then 1 else limit) 100

-- `BigInt(requirement.amountPerParticipant)`.
abbrev pub entry_amount : EntryRequirement → ℤ
entry_amount requirement = pos (digits_value 0 requirement.amount_per_participant)

abbrev pub entry_fingerprint : Platform → FinanceContext → EntryRequirement → Text
entry_fingerprint g context requirement =
    reservation_fingerprint g context.match_id context.participant_id context.user_id
      (entry_amount requirement) reserving_entry

-- `posting`, which stays null if no entry is required.
unfoldable pub entry_posting :
    Platform
    → ℕ
    → ReserveEntryInput
    → FinanceContext
    → EntryRequirement
    → RepositoryTx (Option ReservationPosting)
entry_posting g now input context requirement = elim requirement.required [
  | false ↦ pure none
  | true ↦ do
    posting ← on_ledger (
        reserve g (record {
          match_id = context.match_id;
          participant_id = context.participant_id;
          user_id = context.user_id;
          amount = entry_amount requirement;
          idempotency_key = codes "ledger:" ++ input.idempotency_key;
          fingerprint = entry_fingerprint g context requirement;
          now = now;
        }))
    pure (some posting)
]

abbrev posted_field : Option ReservationPosting → (ReservationPosting → ℕ) → Option ℕ
posted_field none f = none
posted_field (some posting) f = some (f posting)

abbrev pub entry_input :
    Platform
    → ℕ
    → ℕ
    → ReserveEntryInput
    → FinanceContext
    → EntryRequirement
    → Option ReservationPosting
    → CreateReservationInput
entry_input g id now input context requirement posting = record {
  id = id;
  context = context;
  amount = entry_amount requirement;
  status = if requirement.required then reserved else not_required;
  wallet_id = posted_field posting (λ p. p.wallet_id);
  ledger_account_id = posted_field posting (λ p. p.user_account_id);
  escrow_account_id = posted_field posting (λ p. p.escrow_account_id);
  ledger_transaction_id = posted_field posting (λ p. p.transaction_id);
  idempotency_key = input.idempotency_key;
  request_fingerprint = entry_fingerprint g context requirement;
  now = now;
  expires_at = minimum context.ready_deadline_at (now + ttl_seconds * 1000);
}

-- The part of `reserve` in which no reservation exists yet.
unfoldable pub reserve_new :
    Platform
    → ℕ
    → ℕ
    → ReserveEntryInput
    → FinanceContext
    → EntryRequirement
    → RepositoryTx ReservationView
reserve_new g id now input context requirement = do
  posting ← entry_posting g now input context requirement
  created ← create (entry_input g id now input context requirement posting)
  pure (to_reservation_view created)

-- A replay of the request under its idempotency key.
unfoldable pub replay_entry : Text → ReservationRecord → RepositoryTx ReservationView
replay_entry fingerprint keyed = do
  throw_if (not (text_eq keyed.request_fingerprint fingerprint))
      (coded match_entry_reservation_idempotency_conflict)
  pure (to_reservation_view keyed)

unfoldable pub reserve_unkeyed :
    Platform
    → ℕ
    → ℕ
    → ReserveEntryInput
    → FinanceContext
    → EntryRequirement
    → RepositoryTx ReservationView
reserve_unkeyed g id now input context requirement = do
  existing ← find_by_participant context.match_id context.participant_id
  elim existing [
    | some found ↦ pure (to_reservation_view found)
    | none ↦ reserve_new g id now input context requirement
  ]

-- `reserve`, with the identifier that is generated and the time of the clock.
unfoldable pub reserve_entry : Platform → ℕ → ℕ → ReserveEntryInput → RepositoryTx ReservationView
reserve_entry g id now input = do
  row ← gets (find_context input.user_id input.match_id)
  context ← or_throw row (coded match_entry_reservation_participant_invalid)
  throw_if (not (takes_entries context.match_status)) (coded match_entry_reservation_match_invalid)
  throw_if (leb context.ready_deadline_at now) (coded match_entry_reservation_expired)
  requirement ← policy (parse_requirement context.ruleset_configuration)
  keyed ← find_reservation_by_key input.idempotency_key
  elim keyed [
    | some found ↦ replay_entry (entry_fingerprint g context requirement) found
    | none ↦ reserve_unkeyed g id now input context requirement
  ]

-- `getMine` and `listMine`.
unfoldable pub get_mine : ℕ → ℕ → RepositoryTx ReservationView
get_mine user_id match_id = do
  found ← find_mine user_id match_id
  reservation ← or_throw found (coded match_entry_reservation_not_found)
  pure (to_reservation_view reservation)

unfoldable pub list_my_entries : ℕ → ℕ → RepositoryTx (List ReservationView)
list_my_entries user_id limit = do
  found ← list_mine user_id (clamped_limit limit)
  pure (map to_reservation_view found)

-- `assertParticipantEntrySatisfied`; `assertEntrySatisfied` reads the time itself.
unfoldable pub assert_participant_entry_satisfied : ℕ → ℕ → ℕ → RepositoryTx (Unit {0})
assert_participant_entry_satisfied now match_id participant_id = do
  reservation ← find_by_participant match_id participant_id
  elim reservation [
    | some found ↦ policy (assert_entry_satisfied (some found) now)
    | none ↦ do
      context ← gets (find_context_by_participant match_id participant_id)
      elim context [
        | none ↦ policy (assert_entry_satisfied none now)
        | some c ↦ do
          requirement ← policy (parse_requirement c.ruleset_configuration)
          if requirement.required then policy (assert_entry_satisfied none now) else pure tt
      ]
  ]

unfoldable pub assert_each_satisfied : ℕ → ℕ → List FinanceContext → RepositoryTx (Unit {0})
assert_each_satisfied now match_id [] = pure tt
assert_each_satisfied now match_id (c ∷ cs) = do
  assert_participant_entry_satisfied now match_id c.participant_id
  assert_each_satisfied now match_id cs

-- `assertMatchEntrySatisfied`.
unfoldable pub assert_match_entry_satisfied : ℕ → ℕ → RepositoryTx (Unit {0})
assert_match_entry_satisfied now match_id = do
  contexts ← gets (list_contexts match_id)
  throw_if (not (length contexts == 2)) (coded match_entry_reservation_state_invalid)
  assert_each_satisfied now match_id contexts

-- `releaseMatch` of the escrow service.
unfoldable pub release_entries : ℕ → ℕ → RepositoryTx (Unit {0})
release_entries now match_id = do
  assert_match_entry_satisfied now match_id
  rows ← release_match match_id now
  pure tt
