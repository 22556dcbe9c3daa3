-- ===== src/Backing/Refunds.antt =====
-- `AdminMatchFinanceService` (packages/match-finance/src/application/admin-match-finance-service.ts), and
-- the invariant of the match finance tables.
use arena_core.Prelude.{
  ℕ, ◌≡◌, refl, sym, ap, ◌∙◌, Bool, false, some, none, List, [], ◌∷◌, ◌==◌, Bool-cases,
  Option-cases, inl, inr, All, All-map, All-keep, All-sort_by, All-take,
}
use arena_core.Prelude.Outcome.{Ensures, committed, Ensures-after, Ensures-throw_if, Ensures-ok}
use arena_core.Ledger.{Platform}
use arena_core.Finance.Types.{is_reserved}
use arena_core.Finance.Adapter.{RefundLedgerInput}
use arena_core.Finance.Reservations.{ReservationRecord}
use arena_core.Finance.Store.{FinanceStore, ReservationRow}
use arena_core.Finance.Repository.{row_by_id, list_refundable, map_row, map_rows}
use arena_core.Finance.Writes.{rewrite_rows, refunded_row}
use arena_core.Finance.Refunds.{
  AdminRefundInput, refundable_row, refund_posting, refund_input, refund_one, refund_all,
  refund_match,
}
use arena_core.Backing.Held.{Found, All-Found}
use arena_core.Backing.Invariant.{IsBacked, Ensures-with_ledger}
use arena_core.Backing.Refunding.{
  Agrees, Refunded, mark_refunded-Refunded, refund-missing, refund-not_reserved,
  refund_posting-IsBackedUpTo,
}

-- A posting for a reservation that is not there, or not reserved, commits nothing.
module _ (g : Platform) (input : RefundLedgerInput) (s : FinanceStore)
    {Q : ℕ → FinanceStore → Type 0} where
  refund_posting-missing :
      row_by_id input.reservation_id s.reservations ≡ none → Ensures Q (refund_posting g input s)
  unfolding refund_posting
  refund_posting-missing missing = rw missing (
      Ensures-with_ledger {P = λ a l. Q a (record s { ledger = l })} s
        (refund-missing g input s.ledger) λ a l q. q)

  refund_posting-closed :
      (row : ReservationRow)
      → row_by_id input.reservation_id s.reservations ≡ some row
      → is_reserved row.status ≡ false
      → Ensures Q (refund_posting g input s)
  unfolding refund_posting
  refund_posting-closed row found closed = rw found (
      Ensures-with_ledger {P = λ a l. Q a (record s { ledger = l })} s
        (refund-not_reserved g input s.ledger (refundable_row row) closed) λ a l q. q)

-- One round of the loop of `refund`.
refund_one-Refunded :
    (g : Platform) (now : ℕ) (input : AdminRefundInput) (r : ReservationRecord) (s : FinanceStore)
    → Agrees s.reservations r
    → IsBacked s
    → Ensures (λ _ s'. Refunded s r s') (refund_one g now input r s)
unfolding refund_one
refund_one-Refunded g now input r s agrees h = Ensures-throw_if _ _ s _ λ _.
    elim (Option-cases (row_by_id r.id s.reservations)) [
      | inl missing ↦
          Ensures-after (refund_posting-missing g (refund_input g now input r) s missing)
            λ t s1 q. q
      | inr (row, found) ↦ elim (Bool-cases (is_reserved row.status)) [
        | inl open_row ↦
            let (amount, match) = agrees row found in
            Ensures-after
              (refund_posting-IsBackedUpTo g (refund_input g now input r) row s found open_row
                amount match h)
              λ t s1 (k, same). mark_refunded-Refunded r row t now s s1 found k same
        | inr closed ↦
            Ensures-after (refund_posting-closed g (refund_input g now input r) s row found closed)
              λ t s1 q. q
      ]
    ]

same_fields :
    (row row' : ReservationRow)
    → row ≡ row'
    → (row'.amount ≡ row.amount) × (row'.match_id ≡ row.match_id)
same_fields row row' e =
    (ap (λ (x : ReservationRow). x.amount) (sym e), ap (λ (x : ReservationRow). x.match_id) (sym e))

row_by_id-rewrite :
    (test : ReservationRow → Bool) (t now id : ℕ) (rows : List ReservationRow)
    (row' : ReservationRow)
    → row_by_id id (rewrite_rows test (refunded_row t now) rows) ≡ some row'
    → (row : ReservationRow) × (row_by_id id rows ≡ some row)
      × ((row'.amount ≡ row.amount) × (row'.match_id ≡ row.match_id))
unfolding row_by_id rewrite_rows
row_by_id-rewrite test t now id [] row' found = cc
row_by_id-rewrite test t now id (r ∷ rows) row' found = elim (Bool-cases (r.id == id)) [
  | inl here ↦ elim (Bool-cases (test r)) [
    | inl hit ↦
        let same : some (refunded_row t now r) ≡ some row' = rw (hit, here) at found in
        let one : refunded_row t now r ≡ row' = cc same in
        (r, rw here refl, same_fields (refunded_row t now r) row' one)
    | inr miss ↦
        let same : some r ≡ some row' = rw (miss, here) at found in
        let one : r ≡ row' = cc same in (r, rw here refl, same_fields r row' one)
  ]
  | inr there ↦
      let later : row_by_id id (rewrite_rows test (refunded_row t now) rows) ≡ some row' =
        elim (Bool-cases (test r)) [
          | inl hit ↦ rw (hit, there) at found
          | inr miss ↦ rw (miss, there) at found
        ] in
      let (row, at_row, same) = row_by_id-rewrite test t now id rows row' later in
      (row, rw there at_row, same)
]

Agrees-refunded :
    (test : ReservationRow → Bool) (t now : ℕ) (rows : List ReservationRow) (r : ReservationRecord)
    → Agrees rows r
    → Agrees (rewrite_rows test (refunded_row t now) rows) r
Agrees-refunded test t now rows r agrees row' found =
    let (row, at_row, (amount, match)) = row_by_id-rewrite test t now r.id rows row' found in
    let (same_amount, same_match) = agrees row at_row in (amount ∙ same_amount, match ∙ same_match)

refund_all-IsBacked :
    (g : Platform) (now : ℕ) (input : AdminRefundInput) (rs : List ReservationRecord)
    (s : FinanceStore)
    → All (Agrees s.reservations) rs
    → IsBacked s
    → Ensures (λ _ s'. IsBacked s') (refund_all g now input rs s)
unfolding refund_all
refund_all-IsBacked g now input [] s agree h = committed h
refund_all-IsBacked g now input (r ∷ rs) s (agrees, agree) h =
    Ensures-after (refund_one-Refunded g now input r s agrees h) λ one s1 (h1, (t, (now', e))).
      Ensures-after
        (refund_all-IsBacked g now input rs s1
          (rw e (
            All-map (Agrees s.reservations) _ rs (λ x. Agrees-refunded _ t now' s.reservations x)
              agree))
          h1)
        λ rest s2 h2. committed h2

-- The records that a listing of the table tells.
map_rows-Agrees :
    (rows chosen : List ReservationRow) (s : FinanceStore)
    → All (Found rows) chosen
    → Ensures (λ rs t. All (Agrees rows) rs × (t ≡ s)) (map_rows chosen s)
unfolding map_rows map_row
map_rows-Agrees rows [] s h = committed (tt, refl)
map_rows-Agrees rows (row ∷ chosen) s (found, h) =
    Ensures-after {P = λ r t. (r ≡ row.columns) × (t ≡ s)}
      (Ensures-throw_if _ _ s _ λ _. committed (refl, refl))
      λ r t (same, e). rw e (
        Ensures-after (map_rows-Agrees rows chosen s h) λ rs t' (k, e').
          committed
            ((rw same (λ row' found'. same_fields row row' (cc (sym found ∙ found')), k)), e'))

-- Under the invariant, whatever `refund` commits keeps it, however many reservations it refunds.
pub refund_match-IsBacked :
    (g : Platform) (now : ℕ) (input : AdminRefundInput) (s : FinanceStore)
    → IsBacked s
    → Ensures (λ _ s'. IsBacked s') (refund_match g now input s)
unfolding refund_match list_refundable
refund_match-IsBacked g now input s h = Ensures-ok _ s _ (
    Ensures-throw_if _ _ s _ λ _.
      Ensures-after
        (Ensures-ok _ s _ (
          map_rows-Agrees s.reservations _ s (
            All-take (Found s.reservations) _ _ (
              All-sort_by (Found s.reservations) _ _ (
                All-keep (Found s.reservations) _ s.reservations
                  (All-Found s.reservations h.unique))))))
        λ rs t (agree, e). rw e (
          Ensures-after (refund_all-IsBacked g now input rs s agree h) λ results s' k. committed k))
