-- ===== src/Matches/Status.antt =====
-- The states of a match (packages/matches/src/domain/match-policies.ts) and of a dispute
-- (packages/matches/src/domain/match-dispute-policies.ts), and what they may change to.
use arena_core.Prelude.{
  ℕ, Bool, true, false, not, ◌&&◌, ◌||◌, Option, none, some, List, [], ◌∷◌, Text, ltb, ◌==◌,
  if◌then◌else◌, length, any,
}
use arena_core.Prelude.Outcome.{Outcome, ok, throw}
use arena_core.Wallet.Policies.{is_space}

pub data MatchErrorCode : Type 0 where
  match_not_found match_creation_conflict match_proposal_invalid match_snapshot_invalid :
      MatchErrorCode
  match_participant_not_found match_ready_deadline_expired match_state_transition_invalid :
      MatchErrorCode
  match_permission_denied match_service_unavailable match_persistence_failure : MatchErrorCode

pub data MatchStatus : Type 0 where
  created awaiting_ready ready in_progress awaiting_result result_conflict : MatchStatus
  completed cancelled expired voided : MatchStatus

pub data VoidReason : Type 0 where
  invalid_proposal_state account_invalidated catalog_configuration_invalid : VoidReason
  duplicate_match operational_error other_reason : VoidReason

-- The names that the states are compared by.
abbrev pub state_code : MatchStatus → ℕ
state_code created = 0
state_code awaiting_ready = 1
state_code ready = 2
state_code in_progress = 3
state_code awaiting_result = 4
state_code result_conflict = 5
state_code completed = 6
state_code cancelled = 7
state_code expired = 8
state_code voided = 9

-- The table `transitions` of the match policies.
unfoldable pub transitions : MatchStatus → List MatchStatus
transitions created = awaiting_ready ∷ cancelled ∷ voided ∷ []
transitions awaiting_ready = ready ∷ cancelled ∷ expired ∷ voided ∷ []
transitions ready = in_progress ∷ voided ∷ []
transitions in_progress = awaiting_result ∷ voided ∷ []
transitions awaiting_result = completed ∷ result_conflict ∷ voided ∷ []
transitions result_conflict = completed ∷ voided ∷ []
transitions completed = []
transitions cancelled = []
transitions expired = []
transitions voided = []

unfoldable pub assert_match_transition :
    MatchStatus → MatchStatus → Outcome MatchErrorCode (Unit {0})
unfolding transitions
assert_match_transition from to =
    if any (λ s. state_code s == state_code to) (transitions from)
    then ok tt
    else throw match_state_transition_invalid

-- `note.trim() === note`: neither the first nor the last character is a space.
unfoldable pub last_is_space : Text → Bool
last_is_space [] = false
last_is_space (c ∷ []) = is_space c
last_is_space (c ∷ (d ∷ cs)) = last_is_space (d ∷ cs)

abbrev pub is_trimmed : Text → Bool
is_trimmed [] = true
is_trimmed (c ∷ cs) = not (is_space c) && not (last_is_space (c ∷ cs))

abbrev is_untidy : Option Text → Bool
is_untidy none = false
is_untidy (some note) = ltb 500 (length note) || not (is_trimmed note)

abbrev is_missing : Option Text → Bool
is_missing none = true
is_missing (some note) = length note == 0

abbrev is_other_reason : VoidReason → Bool
is_other_reason other_reason = true
is_other_reason _ = false

unfoldable pub validate_void_input : VoidReason → Option Text → Outcome MatchErrorCode (Unit {0})
unfolding last_is_space
validate_void_input reason note =
    if is_untidy note
    then throw match_state_transition_invalid
    else if is_other_reason reason && is_missing note
    then throw match_state_transition_invalid
    else ok tt

pub data DisputeErrorCode : Type 0 where
  dispute_not_found dispute_already_active dispute_open_not_allowed : DisputeErrorCode
  dispute_window_expired dispute_response_not_allowed dispute_cancel_not_allowed : DisputeErrorCode
  dispute_state_invalid dispute_assignment_invalid dispute_resolution_invalid : DisputeErrorCode
  dispute_permission_denied dispute_service_unavailable dispute_persistence_failure :
      DisputeErrorCode

pub data DisputeStatus : Type 0 where
  dispute_open awaiting_response under_review : DisputeStatus
  dispute_resolved dispute_rejected dispute_cancelled dispute_expired : DisputeStatus

abbrev pub dispute_code : DisputeStatus → ℕ
dispute_code dispute_open = 0
dispute_code awaiting_response = 1
dispute_code under_review = 2
dispute_code dispute_resolved = 3
dispute_code dispute_rejected = 4
dispute_code dispute_cancelled = 5
dispute_code dispute_expired = 6

-- The table `transitions` of the dispute policies.
unfoldable pub dispute_transitions : DisputeStatus → List DisputeStatus
dispute_transitions dispute_open = awaiting_response ∷ dispute_cancelled ∷ dispute_rejected ∷ []
dispute_transitions awaiting_response = under_review ∷ dispute_cancelled ∷ dispute_expired ∷ []
dispute_transitions under_review = dispute_resolved ∷ dispute_rejected ∷ dispute_expired ∷ []
dispute_transitions dispute_resolved = []
dispute_transitions dispute_rejected = []
dispute_transitions dispute_cancelled = []
dispute_transitions dispute_expired = []

unfoldable pub assert_dispute_transition :
    DisputeStatus → DisputeStatus → Outcome DisputeErrorCode (Unit {0})
unfolding dispute_transitions
assert_dispute_transition from to =
    if any (λ s. dispute_code s == dispute_code to) (dispute_transitions from)
    then ok tt
    else throw dispute_state_invalid
