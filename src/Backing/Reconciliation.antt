-- ===== src/Backing/Reconciliation.antt =====
-- `reconcile` of `AdminMatchFinanceService`
-- (packages/match-finance/src/application/admin-match-finance-service.ts) on tables that the services
-- have written.
use arena_core.Prelude.{
  ℕ, suc, ◌≡◌, ◌≤◌, refl, sym, ap, ◌∙◌, Bool, true, List, [], ◌∷◌, map, arith, ◌==◌, if◌then◌else◌,
  Bool-cases, inl, inr, All, All-all, All-keep, All-sort_by, keep, take, length, insert_by, sort_by,
  length-sort_by, take-all, codes, text_eq,
}
use arena_core.Prelude.Int.{ℤ, pos, ◌+ℤ◌, ◌-ℤ◌, eqb_ℤ_refl, int_laws}
use arena_core.Prelude.Outcome.{ok, after, throw_if}
use arena_core.Finance.Adapter.{get_escrow_balance}
use arena_core.Finance.Reservations.{ReservationRecord}
use arena_core.Finance.Store.{FinanceStore, ReservationRow, satisfies_checks}
use arena_core.Finance.Repository.{map_row, map_rows, list_match, created_first}
use arena_core.Finance.Refunds.{reconcile_match_escrow, total_held, reconcile_entries}
use arena_core.Backing.Held.{held, is_held}
use arena_core.Backing.Invariant.{IsBacked}

abbrev columns_of : List ReservationRow → List ReservationRecord
columns_of rows = map (λ (r : ReservationRow). r.columns) rows

abbrev IsChecked : ReservationRow → Type 0
IsChecked r = satisfies_checks r ≡ true

-- Rows that the CHECK constraints admit are told.
map_row-ok :
    (row : ReservationRow) (s : FinanceStore) → IsChecked row → map_row row s ≡ ok (row.columns, s)
unfolding map_row satisfies_checks after throw_if
map_row-ok row s checks =
    let points : text_eq row.asset_code (codes "ARENA_POINT") ≡ true = ground (arith, checks) in
    rw points refl

map_rows-ok :
    (rows : List ReservationRow) (s : FinanceStore)
    → All IsChecked rows
    → map_rows rows s ≡ ok (columns_of rows, s)
unfolding map_rows after
map_rows-ok [] s h = refl
map_rows-ok (row ∷ rows) s (checks, h) = rw (map_row-ok row s checks, map_rows-ok rows s h) refl

abbrev pub of_match : ℕ → ReservationRow → Bool
of_match m r = r.match_id == m

abbrev told : ReservationRow → ℤ
told r = if is_held r.status then r.amount else pos 0

total_cons :
    (r : ReservationRow) (rows : List ReservationRow)
    → total_held (columns_of (r ∷ rows)) ≡ told r +ℤ total_held (columns_of rows)
unfolding total_held
total_cons r rows = elim (Bool-cases (is_held r.status)) [
  | inl holds ↦ rw holds refl
  | inr empty ↦ rw empty (omega int_laws)
]

held-total_keep :
    (m : ℕ) (rows : List ReservationRow)
    → total_held (columns_of (keep (of_match m) rows)) ≡ held m rows
unfolding total_held held
held-total_keep m [] = refl
held-total_keep m (r ∷ rows) = elim (Bool-cases (r.match_id == m)) [
  | inl mine ↦ rw (mine, total_cons r (keep (of_match m) rows), held-total_keep m rows) refl
  | inr other ↦ rw (other, held-total_keep m rows) (omega int_laws)
]

total_insert :
    (before : ReservationRow → ReservationRow → Bool) (x : ReservationRow)
    (rows : List ReservationRow)
    → total_held (columns_of (insert_by before x rows)) ≡ total_held (columns_of (x ∷ rows))
total_insert before x [] = refl
total_insert before x (y ∷ rows) = elim (Bool-cases (before x y)) [
  | inl first ↦ rw first refl
  | inr later ↦
      let rest = total_insert before x rows ∙ total_cons x rows in
      rw
        (
          later,
          total_cons y (insert_by before x rows),
          rest,
          total_cons x (y ∷ rows),
          total_cons y rows,
        )
        (omega int_laws)
]

total_sort :
    (before : ReservationRow → ReservationRow → Bool) (rows : List ReservationRow)
    → total_held (columns_of (sort_by before rows)) ≡ total_held (columns_of rows)
unfolding sort_by
total_sort before [] = refl
total_sort before (x ∷ rows) =
    total_insert before x (sort_by before rows)
    ∙ total_cons x (sort_by before rows)
    ∙ ap (λ z. told x +ℤ z) (total_sort before rows)
    ∙ sym (total_cons x rows)

length-columns : (rows : List ReservationRow) → length (columns_of rows) ≡ length rows
length-columns [] = refl
length-columns (r ∷ rows) = ap suc (length-columns rows)

abbrev listed : ℕ → FinanceStore → List ReservationRow
listed m s = sort_by created_first (keep (of_match m) s.reservations)

list_match-ok :
    (m : ℕ) (s : FinanceStore)
    → IsBacked s
    → length (keep (of_match m) s.reservations) ≤ 100
    → list_match m 100 s ≡ ok (columns_of (listed m s), s)
unfolding list_match after
list_match-ok m s h few =
    let whole : take 100 (listed m s) ≡ listed m s =
      take-all 100 (listed m s)
        (rw (length-sort_by created_first (keep (of_match m) s.reservations)) few) in
    rw whole (
      map_rows-ok (listed m s) s (
        All-sort_by IsChecked created_first _ (
          All-keep IsChecked (of_match m) s.reservations
            (All-all satisfies_checks s.reservations h.checks))))

-- Under the invariant, reconciling a match with at most 100 reservations succeeds and changes nothing:
-- it tells that the escrow's balance is the expected one, with a difference of 0.
pub reconcile_entries-consistent :
    (m : ℕ) (s : FinanceStore)
    → IsBacked s
    → length (keep (of_match m) s.reservations) ≤ 100
    → reconcile_entries m s
      ≡ ok (
        record {
          consistent = true;
          escrow_balance = get_escrow_balance m s.ledger;
          expected_balance = get_escrow_balance m s.ledger;
          difference = pos 0;
          reservation_count = length (keep (of_match m) s.reservations);
        },
        s,
      )
unfolding reconcile_entries reconcile_match_escrow after
reconcile_entries-consistent m s h few =
    let total : total_held (columns_of (listed m s)) ≡ get_escrow_balance m s.ledger =
      total_sort created_first (keep (of_match m) s.reservations)
      ∙ held-total_keep m s.reservations
      ∙ rw (h.backed m) (omega int_laws) in
    let count : length (columns_of (listed m s)) ≡ length (keep (of_match m) s.reservations) =
      length-columns (listed m s)
      ∙ length-sort_by created_first (keep (of_match m) s.reservations) in
    let agrees = eqb_ℤ_refl (get_escrow_balance m s.ledger) in
    let apart : get_escrow_balance m s.ledger -ℤ get_escrow_balance m s.ledger ≡ pos 0 =
      omega int_laws in
    rw (list_match-ok m s h few, total, count, agrees, apart) refl
