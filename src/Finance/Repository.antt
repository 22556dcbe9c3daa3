-- ===== src/Finance/Repository.antt =====
-- `PrismaMatchFinanceRepository`
-- (packages/match-finance/src/infrastructure/prisma-match-finance-repository.ts). The status of a
-- participant and the snapshots of a reservation are left out, which no code reads again.
use mathlib.Core.Option
use arena_core.Prelude.{
  ℕ, Bool, not, ◌&&◌, ◌||◌, Option, none, some, List, [], ◌∷◌, map, Text, codes, text_eq, ◌==◌, ltb,
  leb, find, keep, take, sort_by,
}
use arena_core.Prelude.Outcome.{pure, gets, throw_if, ◌>>=◌, ◌>>◌}
use arena_core.Ledger.{coded}
use arena_core.Finance.Types.{
  MatchStatus, MatchFinanceErrorCode, match_escrow_invariant_violation, is_reserved,
}
use arena_core.Finance.Requirement.{Json}
use arena_core.Finance.Reservations.{ReservationRecord}
use arena_core.Finance.Store.{ParticipantRow, MatchRow, ReservationRow, FinanceStore, FinanceTx}

-- `MatchFinanceContext`.
pub record FinanceContext : Type 0 where
  pub match_id : ℕ
  pub match_status : MatchStatus
  pub participant_id : ℕ
  pub participant_side : ℕ
  pub user_id : ℕ
  pub ruleset_configuration : Json
  pub ready_deadline_at : ℕ

abbrev pub RepositoryTx : Type 0 → Type 0
RepositoryTx A = FinanceTx MatchFinanceErrorCode A

-- `map`, on one row, on a row that may be missing, and on a list.
unfoldable pub map_row : ReservationRow → RepositoryTx ReservationRecord
map_row row = do
  throw_if (not (text_eq row.asset_code (codes "ARENA_POINT")))
      (coded match_escrow_invariant_violation)
  pure row.columns

unfoldable pub map_optional : Option ReservationRow → RepositoryTx (Option ReservationRecord)
map_optional none = pure none
map_optional (some row) = do mapped ← map_row row; pure (some mapped)

unfoldable pub map_rows : List ReservationRow → RepositoryTx (List ReservationRecord)
map_rows [] = pure []
map_rows (row ∷ rows) = do mapped ← map_row row; rest ← map_rows rows; pure (mapped ∷ rest)

abbrev context_of : MatchRow → ParticipantRow → FinanceContext
context_of row participant = record {
  match_id = row.match_id;
  match_status = row.match_status;
  participant_id = participant.participant_id;
  participant_side = participant.side;
  user_id = participant.user_id;
  ruleset_configuration = row.ruleset_configuration;
  ready_deadline_at = row.ready_deadline_at;
}

unfoldable pub match_by_id : ℕ → FinanceStore → Option MatchRow
match_by_id id s = find (λ (m : MatchRow). m.match_id == id) s.matches

unfoldable pub find_context : ℕ → ℕ → FinanceStore → Option FinanceContext
find_context user_id match_id s = elim (match_by_id match_id s) [
  | none ↦ none
  | some row ↦
      Option.map (context_of row)
        (find (λ (p : ParticipantRow). p.user_id == user_id) row.participants)
]

unfoldable pub list_contexts : ℕ → FinanceStore → List FinanceContext
list_contexts match_id s = elim (match_by_id match_id s) [
  | none ↦ []
  | some row ↦ map (context_of row) row.participants
]

unfoldable pub find_context_by_participant : ℕ → ℕ → FinanceStore → Option FinanceContext
find_context_by_participant match_id participant_id s =
    find (λ (c : FinanceContext). c.participant_id == participant_id) (list_contexts match_id s)

unfoldable pub get_match_status : ℕ → FinanceStore → Option MatchStatus
get_match_status match_id s = Option.map (λ (m : MatchRow). m.match_status) (match_by_id match_id s)

unfoldable pub row_by_id : ℕ → List ReservationRow → Option ReservationRow
row_by_id id rows = find (λ (r : ReservationRow). r.id == id) rows

abbrev pub of_participant : ℕ → ℕ → ReservationRow → Bool
of_participant match_id participant_id r =
    r.match_id == match_id && r.participant_id == participant_id

unfoldable pub find_by_participant : ℕ → ℕ → RepositoryTx (Option ReservationRecord)
find_by_participant match_id participant_id = do
  row ← gets (λ s. find (of_participant match_id participant_id) s.reservations)
  map_optional row

unfoldable pub find_reservation_by_key : Text → RepositoryTx (Option ReservationRecord)
find_reservation_by_key key = do
  row ← gets (λ s. find (λ (r : ReservationRow). text_eq r.idempotency_key key) s.reservations)
  map_optional row

unfoldable pub find_mine : ℕ → ℕ → RepositoryTx (Option ReservationRecord)
find_mine user_id match_id = do
  row ← gets (λ s.
      find (λ (r : ReservationRow). r.user_id == user_id && r.match_id == match_id) s.reservations)
  map_optional row

-- By the date of creation, and by the identifier at one date.
abbrev pub created_first : ReservationRow → ReservationRow → Bool
created_first a b = ltb a.created_at b.created_at || (a.created_at == b.created_at && leb a.id b.id)

unfoldable pub list_mine : ℕ → ℕ → RepositoryTx (List ReservationRecord)
list_mine user_id limit = do
  rows ← gets (λ s. take limit (
      sort_by (λ a b. created_first b a)
        (keep (λ (r : ReservationRow). r.user_id == user_id) s.reservations)))
  map_rows rows

unfoldable pub list_match : ℕ → ℕ → RepositoryTx (List ReservationRecord)
list_match match_id limit = do
  rows ← gets (λ s. take limit (
      sort_by created_first (keep (λ (r : ReservationRow). r.match_id == match_id) s.reservations)))
  map_rows rows

unfoldable pub list_refundable : ℕ → ℕ → RepositoryTx (List ReservationRecord)
list_refundable match_id limit = do
  rows ← gets (λ s. take limit (
      sort_by (λ (a b : ReservationRow). leb a.id b.id)
        (keep (λ (r : ReservationRow). r.match_id == match_id && is_reserved r.status)
          s.reservations)))
  map_rows rows
