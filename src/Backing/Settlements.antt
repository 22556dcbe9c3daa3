-- ===== src/Backing/Settlements.antt =====
-- `createSettlement`
-- (packages/match-finance/src/infrastructure/prisma-match-settlement-repository.ts) against the CHECK
-- constraints of the reservations: a reservation that is closed keeps the date of its release, and a
-- refunded one gets no refund transaction.
use arena_core.Prelude.{
  ℕ, ◌≡◌, ◌⊎◌, refl, sym, ap, ◌∙◌, true, false, some, none, List, [], ◌∷◌, map, Text, arith, ◌==◌,
  Bool-cases, Option-cases, inl, inr, all, All, all-find, All-sort_by, All-keep,
}
use arena_core.Prelude.Outcome.{
  ok, Ensures, committed, Ensures-after, Ensures-throw_if, Ensures-or_throw, Ensures-ok,
  Ensures-elim, Ensures-any,
}
use arena_core.Ledger.{Platform}
use arena_core.Finance.Types.{
  SettlementContext, SettlementReservation, SettlementRecord, is_released, is_refunded, is_voided,
  is_winner_takes_all,
}
use arena_core.Finance.Eligibility.{MaySettle, settlement_type_of}
use arena_core.Finance.Evaluation.{type_of_evaluation}
use arena_core.Finance.Store.{FinanceStore, ReservationRow, satisfies_checks, status_checks}
use arena_core.Finance.Repository.{row_by_id, match_by_id}
use arena_core.Finance.Writes.{rewrite_rows}
use arena_core.Finance.Contexts.{
  entry_reservations, settlement_reservation, context_of_match, find_settlement_context,
  settlement_by_key,
}
use arena_core.Finance.Closing.{
  CreateSettlementInput, new_settlement, closed_row, close_reservations, create_settlement,
}
use arena_core.Finance.Settlements.{SettleInput, effective_context, settle_new, settle}
use arena_core.Backing.Held.{Found, All-Found}
use arena_core.Backing.Invariant.{IsBacked, Ensures-with_ledger, Ensures-put_rows}

module _ (input : CreateSettlementInput) (r : SettlementReservation) (row : ReservationRow)
    (checks : satisfies_checks row ≡ true) where
  closed_released-breaks :
      is_released row.status ≡ true → satisfies_checks (closed_row input r row) ≡ false
  unfolding satisfies_checks status_checks closed_row
  closed_released-breaks released = elim (Bool-cases (is_winner_takes_all input.type)) [
    | inl wins ↦ rw wins (ground arith)
    | inr back ↦ rw back (ground arith)
  ]

  closed_refund-breaks :
      is_winner_takes_all input.type ≡ false
      → is_refunded row.status ≡ false
      → satisfies_checks (closed_row input r row) ≡ false
  unfolding satisfies_checks status_checks closed_row
  closed_refund-breaks back other = rw back (ground arith)

-- A row that breaks a CHECK when it is rewritten.
rewrite-breaks :
    (id : ℕ) (f : ReservationRow → ReservationRow) (rows : List ReservationRow)
    (row : ReservationRow)
    → row_by_id id rows ≡ some row
    → satisfies_checks (f row) ≡ false
    → all satisfies_checks (rewrite_rows (λ (x : ReservationRow). x.id == id) f rows) ≡ false
unfolding row_by_id rewrite_rows
rewrite-breaks id f [] row found breaks = cc
rewrite-breaks id f (r ∷ rows) row found breaks = elim (Bool-cases (r.id == id)) [
  | inl here ↦
      let same : some r ≡ some row = rw here at found in
      let one : r ≡ row = cc same in rw (here, one, breaks) refl
  | inr there ↦
      let rest = rewrite-breaks id f rows row (rw there at found) breaks in
      rw (there, rest) (ground arith)
]

module _ {Q : Unit {0} → FinanceStore → Type 0} (input : CreateSettlementInput) where
  close-refused :
      (row : ReservationRow) (rs : List SettlementReservation) (s : FinanceStore)
      → Found s.reservations row
      → satisfies_checks (closed_row input (settlement_reservation row) row) ≡ false
      → Ensures Q (close_reservations input (settlement_reservation row ∷ rs) s)
  unfolding close_reservations
  close-refused row rs s found breaks = Ensures-ok _ s _ (
      Ensures-or_throw _ _ s _ λ row' found'. Ensures-ok _ s _ (
        Ensures-put_rows _ s _ λ checks.
          let one : row ≡ row' = cc (sym found ∙ found') in
          let broken =
            rewrite-breaks row.id (closed_row input (settlement_reservation row)) s.reservations row
              found breaks in
          absurd (cc (sym checks ∙ broken))))

  close_listed-refused :
      (row : ReservationRow) (rs all_of_them : List SettlementReservation) (s : FinanceStore)
      → all_of_them ≡ settlement_reservation row ∷ rs
      → Found s.reservations row
      → satisfies_checks (closed_row input (settlement_reservation row) row) ≡ false
      → Ensures Q (close_reservations input all_of_them s)
  close_listed-refused row rs all_of_them s e found breaks =
      rw e (close-refused row rs s found breaks)

-- What the first reservation of a match that may be settled is.
first_is_held :
    (context : SettlementContext) (now : ℕ) (row : ReservationRow) (rs : List SettlementReservation)
    → MaySettle context now
    → context.reservations ≡ settlement_reservation row ∷ rs
    → (is_released row.status ≡ true)
      ⊎ ((is_winner_takes_all (settlement_type_of context) ≡ false)
          × (is_refunded row.status ≡ false))
unfolding settlement_type_of
first_is_held context now row rs m e = elim (Bool-cases (is_voided context.match_status)) [
  | inl voided ↦
      let held = rw e at m.voided voided in
      elim (Bool-cases (is_released row.status)) [
        | inl released ↦ inl released
        | inr other ↦ inr (rw voided refl, ground (arith, held))
      ]
  | inr final ↦ inl (let paid = rw e at (m.completed final).2 in ground (arith, paid))
]

effective-reservations :
    (c : SettlementContext) → (effective_context c).reservations ≡ c.reservations
unfolding effective_context
effective-reservations c = elim (Option-cases c.settlement_eligible_at) [
  | inl undated ↦ elim (Option-cases c.completed_at) [
    | inl open_match ↦ rw (effective_context, undated, open_match) refl
    | inr (at, completed) ↦ rw (effective_context, undated, completed) refl
  ]
  | inr (at, dated) ↦ rw (effective_context, dated) refl
]

module _ {Q : SettlementRecord → FinanceStore → Type 0} where
  create_settlement-refused :
      (input : CreateSettlementInput) (row : ReservationRow) (rs : List SettlementReservation)
      (s : FinanceStore)
      → input.context.reservations ≡ settlement_reservation row ∷ rs
      → Found s.reservations row
      → satisfies_checks (closed_row input (settlement_reservation row) row) ≡ false
      → Ensures Q (create_settlement input s)
  unfolding create_settlement
  create_settlement-refused input row rs s e found breaks = Ensures-ok _ s _ (
      Ensures-throw_if _ _ s _ λ _. Ensures-ok _ _ _ (
        Ensures-after {P = λ _ t. Ensures Q (ok (new_settlement input, t))}
          (close_listed-refused input row rs input.context.reservations _ e found breaks)
          λ u t q. q))

  settle_new-refused :
      (g : Platform) (id now : ℕ) (input : SettleInput) (context : SettlementContext)
      (fingerprint : Text) (row : ReservationRow) (rows : List ReservationRow) (s : FinanceStore)
      → context.reservations ≡ map settlement_reservation (row ∷ rows)
      → Found s.reservations row
      → satisfies_checks row ≡ true
      → Ensures Q (settle_new g id now input context fingerprint s)
  unfolding settle_new
  settle_new-refused g id now input context fingerprint row rows s e found checks =
      Ensures-throw_if _ _ s _ λ _. Ensures-or_throw _ _ s _ λ type typed.
        let (may, same_type) = type_of_evaluation (effective_context context) now type typed in
        let listed = effective-reservations context ∙ e in
        Ensures-after {P = λ _ t. t.reservations ≡ s.reservations}
          (Ensures-with_ledger s (Ensures-any _) λ t l _. refl)
          λ t s1 same.
            create_settlement-refused _ row (map settlement_reservation rows) s1 e (rw same found)
              (elim (first_is_held (effective_context context) now row _ may listed) [
                | inl released ↦ closed_released-breaks _ _ row checks released
                | inr (back, other) ↦
                    closed_refund-breaks _ _ row checks (rw same_type at back) other
              ])

  settle_listed-refused :
      (g : Platform) (id now : ℕ) (input : SettleInput) (context : SettlementContext)
      (fingerprint : Text) (rows : List ReservationRow) (s : FinanceStore)
      → context.reservations ≡ map settlement_reservation rows
      → All (Found s.reservations) rows
      → all satisfies_checks s.reservations ≡ true
      → Ensures Q (settle_new g id now input context fingerprint s)
  unfolding settle_new row_by_id
  settle_listed-refused g id now input context fingerprint [] s e found checks =
      Ensures-throw_if _ _ s _ λ _. Ensures-or_throw _ _ s _ λ type typed.
        let (may, _) = type_of_evaluation (effective_context context) now type typed in
        let two = rw (effective-reservations context, e) at may.two_entries in
        absurd (ground (arith, two))
  settle_listed-refused g id now input context fingerprint (row ∷ rows) s e (found, _) checks =
      settle_new-refused g id now input context fingerprint row rows s e found
        (all-find _ satisfies_checks s.reservations checks found)

-- The reservations of a context are those that the table lists for a match.
context_listed :
    (match_id : ℕ) (s : FinanceStore) (context : SettlementContext)
    → find_settlement_context match_id s ≡ some context
    → (id : ℕ) × (context.reservations ≡ map settlement_reservation (entry_reservations id s))
unfolding find_settlement_context
context_listed match_id s context e = elim (Option-cases (match_by_id match_id s)) [
  | inl missing ↦ let nobody : none ≡ some context = rw missing at e in absurd (ground arith)
  | inr (row, found) ↦
      let same : some (context_of_match s row) ≡ some context = rw found at e in
      let one : context_of_match s row ≡ context = cc same in
      (row.match_id, ap (λ (c : SettlementContext). c.reservations) (sym one))
]

-- What a commit of `settle` is: a replay.
abbrev pub Replayed : SettleInput → FinanceStore → SettlementRecord → FinanceStore → Type 0
Replayed input s found s' = (s' ≡ s) × (settlement_by_key input.idempotency_key s ≡ some found)

pub settle-Replayed :
    (g : Platform) (id now : ℕ) (input : SettleInput) (s : FinanceStore)
    → IsBacked s
    → Ensures (Replayed input s) (settle g id now input s)
unfolding settle entry_reservations
settle-Replayed g id now input s h = Ensures-ok _ s _ (
    Ensures-or_throw _ _ s _ λ context contexts. Ensures-ok _ s _ (
      Ensures-elim (settlement_by_key input.idempotency_key s) s _ _
        (λ unkeyed. Ensures-ok _ s _ (
          Ensures-throw_if _ _ s _ λ _.
            let (mid, listed) = context_listed input.match_id s context contexts in
            settle_listed-refused g id now input context _ (entry_reservations mid s) s listed
              (All-sort_by (Found s.reservations) _ _ (
                All-keep (Found s.reservations) _ s.reservations
                  (All-Found s.reservations h.unique)))
              h.checks))
        λ found keyed. Ensures-throw_if _ _ s _ λ _. committed (refl, keyed)))
