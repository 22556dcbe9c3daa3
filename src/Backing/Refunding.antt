-- ===== src/Backing/Refunding.antt =====
-- The refund of one reservation
-- (packages/match-finance/src/application/admin-match-finance-service.ts).
use arena_core.Prelude.{
  ℕ, ◌≡◌, refl, sym, ap, ◌∙◌, true, false, some, none, List, arith, ◌==◌, Bool-cases, inl, inr,
  All-find, all-find,
}
use arena_core.Prelude.Int.{ℤ, pos, ◌+ℤ◌, ◌-ℤ◌, ◌≤ℤ◌, int_laws}
use arena_core.Prelude.Outcome.{
  Ensures, rolled_back, Ensures-throw_if, Ensures-map, Ensures-or_throw, Ensures-ok, Ensures-both,
  after, or_throw,
}
use arena_core.Ledger.{Ledger, Platform}
use arena_core.Finance.Types.{is_reserved}
use arena_core.Finance.Adapter.{RefundableRow, RefundLedgerInput, refund}
use arena_core.Finance.Reservations.{ReservationRecord}
use arena_core.Finance.Store.{FinanceStore, ReservationRow, satisfies_checks, required_fields_check}
use arena_core.Finance.Repository.{row_by_id}
use arena_core.Finance.Writes.{rewrite_rows, refunded_row, mark_refunded}
use arena_core.Finance.Refunds.{refundable_row, refund_posting}
use arena_core.Books.Invariant.{IsSound}
use arena_core.Books.Rows.{account_by_id-id}
use arena_core.Books.Escrow.{HasAccounts, refund-IsSound}
use arena_core.Backing.Escrows.{nothing}
use arena_core.Backing.Transfers.{only}
use arena_core.Backing.Reserving.{escrow_apart, refund-Moves}
use arena_core.Backing.Held.{held, held_by, held-rewrite, Accounts, IsLinked}
use arena_core.Backing.Invariant.{
  IsBackedUpTo, IsBacked, IsBackedUpTo-change, Ensures-with_ledger, Ensures-put_rows,
  moved-IsBackedUpTo, rewritten-IsBackedUpTo,
}
use arena_core.Backing.Entries.{map_row-Reads}

-- A reservation that is not there, or not reserved, is not refunded.
module _ (g : Platform) (input : RefundLedgerInput) (l : Ledger) {Q : ℕ → Ledger → Type 0} where
  pub refund-missing : Ensures Q (refund g none input l)
  unfolding refund after or_throw
  refund-missing = rolled_back

  pub refund-not_reserved :
      (row : RefundableRow)
      → is_reserved row.status ≡ false
      → Ensures Q (refund g (some row) input l)
  unfolding refund
  refund-not_reserved row closed = Ensures-or_throw _ _ l _ λ r er. Ensures-or_throw _ _ l _ λ a _.
      Ensures-or_throw _ _ l _
        λ e _. Ensures-throw_if _ _ l _ λ is_open. absurd (ground (arith, er))

-- A record tells the amount and the match of the row that its identifier finds.
abbrev pub Agrees : List ReservationRow → ReservationRecord → Type 0
Agrees rows r =
    (row : ReservationRow)
    → row_by_id r.id rows ≡ some row
    → (row.amount ≡ r.amount) × (row.match_id ≡ r.match_id)

amount_of_reserved :
    (row : ReservationRow)
    → satisfies_checks row ≡ true
    → is_reserved row.status ≡ true
    → pos 1 ≤ℤ row.amount
unfolding satisfies_checks required_fields_check
amount_of_reserved row checks open_row = ground arith

HasAccounts-of_linked :
    (l : Ledger) (row : ReservationRow)
    → IsSound l
    → Accounts l row
    → HasAccounts (some (refundable_row row))
HasAccounts-of_linked l row h k r a e er ea ee =
    let one : refundable_row row ≡ r = cc er in
    let same_user : a ≡ k.user_id =
      cc (sym ea ∙ ap (λ (x : RefundableRow). x.ledger_account_id) (sym one) ∙ k.tells_user) in
    let same_escrow : e ≡ k.escrow_id =
      cc (sym ee ∙ ap (λ (x : RefundableRow). x.escrow_account_id) (sym one) ∙ k.tells_escrow) in
    let eid = account_by_id-id k.escrow_id l k.rows.escrow_row k.rows.at_escrow in
    let aid = account_by_id-id k.user_id l k.rows.user k.rows.at_user in
    let apart =
      escrow_apart row.match_id k.rows.user k.rows.escrow_row l h (rw (← aid) at k.rows.at_user)
        (rw (← eid) at k.rows.at_escrow) k.rows.is_user k.rows.is_escrow in
    rw (same_user, same_escrow, ← eid, ← aid) apart

-- What the adapter's refund of a reserved row leaves pending.
pub refund_posting-IsBackedUpTo :
    (g : Platform) (input : RefundLedgerInput) (row : ReservationRow) (s : FinanceStore)
    → row_by_id input.reservation_id s.reservations ≡ some row
    → is_reserved row.status ≡ true
    → row.amount ≡ input.amount
    → row.match_id ≡ input.match_id
    → IsBacked s
    → Ensures
        (λ _ s'.
          IsBackedUpTo (only row.match_id (pos 0 -ℤ row.amount)) s'
          × (s'.reservations ≡ s.reservations))
        (refund_posting g input s)
unfolding refund_posting row_by_id
refund_posting-IsBackedUpTo g input row s found open_row amount match h =
    let checks = all-find _ satisfies_checks s.reservations h.checks found in
    let positive = amount_of_reserved row checks open_row in
    let k =
      (All-find (IsLinked s.ledger) _ s.reservations h.linked found).0 (ground (arith, open_row)) in
    rw found (
      Ensures-with_ledger s
        (Ensures-both _
          (refund-IsSound g (some (refundable_row row)) input s.ledger (rw (← amount) positive)
            (HasAccounts-of_linked s.ledger row h.sound k) h.sound)
          (refund-Moves g (refundable_row row) input s.ledger k.user_id k.escrow_id h.sound
            h.indexed k.tells_user k.tells_escrow (rw (← match) k.rows)))
        λ t l (sound, moves). (
          IsBackedUpTo-change _ _ _ (λ m. rw (amount, match) (omega int_laws))
              (moved-IsBackedUpTo nothing _ s l h sound moves),
          refl,
        ))

-- What a round of the loop commits: the invariant, and a table whose rows have the amounts and the
-- matches that they had.
abbrev pub Refunded : FinanceStore → ReservationRecord → FinanceStore → Type 0
Refunded s r s' =
    IsBacked s'
    × ((t : ℕ) × ((now : ℕ) × (s'.reservations
            ≡ rewrite_rows (λ (x : ReservationRow). x.id == r.id) (refunded_row t now)
                s.reservations)))

refunded_row-IsLinked :
    (l : Ledger) (t now : ℕ) (r : ReservationRow) → IsLinked l (refunded_row t now r)
refunded_row-IsLinked l t now r held_still = absurd (ground arith)

refund_sum :
    (t now m : ℕ) (row : ReservationRow) (h : ℤ)
    → is_reserved row.status ≡ true
    → ((h +ℤ held_by (refunded_row t now row) m) -ℤ held_by row m) +ℤ pos 0
      ≡ h +ℤ only row.match_id (pos 0 -ℤ row.amount) m
refund_sum t now m row h open_row = elim (Bool-cases (row.match_id == m)) [
  | inl same ↦ rw (same, open_row) (omega int_laws)
  | inr other ↦ rw other (omega int_laws)
]

pub mark_refunded-Refunded :
    (r : ReservationRecord) (row : ReservationRow) (t now : ℕ) (s s1 : FinanceStore)
    → row_by_id r.id s.reservations ≡ some row
    → IsBackedUpTo (only row.match_id (pos 0 -ℤ row.amount)) s1
    → s1.reservations ≡ s.reservations
    → Ensures (λ _ s'. Refunded s r s') (mark_refunded r.id t now s1)
unfolding mark_refunded
mark_refunded-Refunded r row t now s s1 found h same = Ensures-ok _ s1 _ (
    Ensures-or_throw _ _ s1 _ λ row' found'. Ensures-throw_if _ _ s1 _ λ open_row.
      Ensures-ok _ s1 _ (
        Ensures-put_rows _ s1 _ λ checks.
          Ensures-map (map_row-Reads (refunded_row t now row') _) λ _ s' e. rw e (
            rewritten-IsBackedUpTo (only row.match_id (pos 0 -ℤ row.amount)) nothing _
                (refunded_row t now) s1 (λ x. refl)
                (λ x _ _. refunded_row-IsLinked s1.ledger t now x) checks
                (λ m.
                  let one : row' ≡ row = cc in
                  let sums =
                    held-rewrite r.id (refunded_row t now) m s1.reservations row' h.unique found' in
                  rw sums (
                    rw one (
                      refund_sum t now m row (held m s1.reservations)
                        (rw (← one) (ground (arith, open_row))))))
                h,
            (
              t,
              (
                now,
                ap (rewrite_rows (λ (x : ReservationRow). x.id == r.id) (refunded_row t now)) same,
              ),
            ),
          )))
