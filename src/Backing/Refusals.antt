-- ===== src/Backing/Refusals.antt =====
-- The CHECK constraints of packages/database/prisma/migrations/20260727100000_create_wallet_ledger admit
-- no transaction for a match: what that means for packages/match-finance.
use arena_core.Prelude.{
  ℕ, ◌≡◌, refl, Bool, true, false, Option, List, [], ◌∷◌, ◌⊎◌, inl, inr, arith,
}
use arena_core.Prelude.Outcome.{
  Outcome, throw, Tx, after, Ensures, committed, rolled_back, Ensures-after, Ensures-any,
  Ensures-ok, Ensures-throw_if, Ensures-or_throw, Ensures-reading, Ensures-elim,
}
use arena_core.Ledger.{
  Ledger, LedgerTransaction, Failure, Platform, create_transaction, transaction_checks,
  reference_check,
}
use arena_core.Finance.Adapter.{
  ReserveLedgerInput, RefundLedgerInput, RefundableRow, PostSettlementInput, ReservationPosting,
  reserve, refund, post_settlement, finance_row,
}
use arena_core.Finance.Requirement.{EntryRequirement, parse_requirement}
use arena_core.Finance.Reservations.{ReservationRecord}
use arena_core.Finance.Types.{not_required}
use arena_core.Finance.Writes.{new_row}
use arena_core.Finance.Store.{FinanceStore, ReservationRow}
use arena_core.Finance.Repository.{
  FinanceContext, find_by_participant, find_reservation_by_key, list_refundable,
}
use arena_core.Finance.Entries.{
  ReserveEntryInput, entry_posting, entry_input, reserve_new, reserve_unkeyed, replay_entry,
  reserve_entry,
}
use arena_core.Finance.Refunds.{
  AdminRefundInput, refund_posting, refund_one, refund_all, refund_match,
}
use arena_core.Backing.Invariant.{Ensures-with_ledger, create-Inserted}
use arena_core.Backing.Entries.{map_rows-Reads, map_optional-Reads, Ensures-policy}

-- Nothing is committed.
abbrev NeverCommits : {S E A : Type 0} → Outcome E (A × S) → Type 0
NeverCommits r = Ensures (λ _ _. ⊥) r

-- The call throws: its transaction is rolled back.
abbrev pub Throws : {S E A : Type 0} → Outcome E (A × S) → Type 0
Throws {E = E} r = (e : E) × (r ≡ throw e)

throws : {S E A : Type 0} {r : Outcome E (A × S)} → NeverCommits r → Throws r
throws (rolled_back {e = e}) = (e, refl)
throws (committed p) = absurd p

-- Whatever came before.
Never-after :
    {S E A B : Type 0} (r : Outcome E (A × S)) (k : A → Tx S E B)
    → ((a : A) (s : S) → NeverCommits (k a s))
    → NeverCommits (after r k)
Never-after r k h = Ensures-after (Ensures-any r) λ a s _. h a s

-- A row whose reference the CHECK constraint does not admit.
checks-refused :
    (users : List ℕ) (t : LedgerTransaction)
    → reference_check t.reference_type ≡ false
    → transaction_checks users t ≡ false
unfolding transaction_checks
checks-refused users t refused = ground arith

module _ {C B : Type 0} where
  create_refused :
      (g : Platform) (row : ℕ → LedgerTransaction) (l : Ledger)
      (k : LedgerTransaction → Tx Ledger (Failure C) B)
      → ((id : ℕ) → reference_check (row id).reference_type ≡ false)
      → NeverCommits (after (create_transaction {C = C} g row l) k)
  unfolding create_transaction after
  create_refused g row l k refused = rw (checks-refused l.users (row _) (refused _)) rolled_back

reserve-NeverCommits :
    (g : Platform) (input : ReserveLedgerInput) (l : Ledger) → NeverCommits (reserve g input l)
unfolding reserve finance_row reference_check
reserve-NeverCommits g input l = Never-after _ _ λ w s1. Never-after _ _ λ _ s2.
    Never-after _ _ λ a s3. Never-after _ _ λ e s4. Never-after _ _ λ _ s5. Never-after _ _ λ n s6.
      Never-after _ _ λ _ s7.
        Never-after _ _
          λ after_u s8. Never-after _ _ λ after_e s9. create_refused g _ s9 _ λ id. refl

-- Whatever the ledger holds, `reserve` of the ledger adapter throws.
pub reserve-Throws :
    (g : Platform) (input : ReserveLedgerInput) (l : Ledger) → Throws (reserve g input l)
reserve-Throws g input l = throws (reserve-NeverCommits g input l)

refund-NeverCommits :
    (g : Platform) (row : Option RefundableRow) (input : RefundLedgerInput) (l : Ledger)
    → NeverCommits (refund g row input l)
unfolding refund finance_row reference_check
refund-NeverCommits g row input l = Never-after _ _ λ r s1. Never-after _ _ λ a s2.
    Never-after _ _ λ e s3. Never-after _ _ λ _ s4. Never-after _ _ λ n s5. Never-after _ _ λ _ s6.
      Never-after _ _ λ after_e s7. Never-after _ _ λ after_u s8. create_refused g _ s8 _ λ id. refl

-- Whatever the ledger and the reservation are, `refund` of the ledger adapter throws.
pub refund-Throws :
    (g : Platform) (row : Option RefundableRow) (input : RefundLedgerInput) (l : Ledger)
    → Throws (refund g row input l)
refund-Throws g row input l = throws (refund-NeverCommits g row input l)

-- Whatever the ledger and the reservations are, `postSettlement` throws.
pub post_settlement-Throws :
    (g : Platform) (input : PostSettlementInput) (l : Ledger) → Throws (post_settlement g input l)
unfolding post_settlement finance_row reference_check
post_settlement-Throws g input l = throws (
    Never-after _ _ λ e s1. Never-after _ _ λ _ s2. Never-after _ _ λ n s3. Never-after _ _ λ _ s4.
      Never-after _ _ λ after_e s5.
        Never-after _ _ λ _ s6. Never-after _ _ λ cs s7. create_refused g _ s7 _ λ id. refl)

-- Nothing is written, or one new reservation for which no points were asked.
abbrev pub IsFree : FinanceStore → FinanceStore → Type 0
IsFree s t =
    (t ≡ s)
    ⊎ ((row : ReservationRow) × (row.status ≡ not_required)
        × (t ≡ record s { reservations = row ∷ s.reservations }))

abbrev Unpaid : EntryRequirement → Option ReservationPosting → FinanceStore → FinanceStore → Type 0
Unpaid requirement posting s t = (requirement.required ≡ false) × (t ≡ s)

module _ (g : Platform) (id now : ℕ) (input : ReserveEntryInput) (context : FinanceContext) where
  entry_posting-Unpaid :
      (requirement : EntryRequirement) (required : Bool) (s : FinanceStore)
      → requirement.required ≡ required
      → Ensures
          (λ posting t. Unpaid requirement posting s t)
          (entry_posting g now input context requirement s)
  unfolding entry_posting
  entry_posting-Unpaid requirement false s e = rw e (committed (refl, refl))
  entry_posting-Unpaid requirement true s e = rw e (
      Ensures-after
        (Ensures-with_ledger {P = λ _ _. ⊥} {Q = λ _ _. ⊥} s (reserve-NeverCommits g _ s.ledger)
          λ p l none_committed. none_committed)
        λ p t none_committed. absurd none_committed)

  reserve_new-IsFree :
      (requirement : EntryRequirement) (s : FinanceStore)
      → Ensures (λ _ t. IsFree s t) (reserve_new g id now input context requirement s)
  unfolding reserve_new new_row
  reserve_new-IsFree requirement s =
      Ensures-after (entry_posting-Unpaid requirement requirement.required s refl)
        λ posting s1 (free, same).
          Ensures-after
            (create-Inserted (entry_input g id now input context requirement posting) s1)
            λ _ s2 inserted. committed (
              inr (
                new_row (entry_input g id now input context requirement posting),
                rw free refl,
                rw same at inserted.state,
              ))

-- Whatever `reserve` of a match entry commits, it writes nothing, or one reservation with the status
-- NOT_REQUIRED, and the ledger stays as it is.
pub reserve_entry-IsFree :
    (g : Platform) (id now : ℕ) (input : ReserveEntryInput) (s : FinanceStore)
    → Ensures (λ _ t. IsFree s t) (reserve_entry g id now input s)
unfolding reserve_entry replay_entry reserve_unkeyed find_reservation_by_key find_by_participant
reserve_entry-IsFree g id now input s = Ensures-ok _ s _ (
    Ensures-or_throw _ _ s _ λ context _. Ensures-throw_if _ _ s _ λ _.
      Ensures-throw_if _ _ s _ λ _.
        Ensures-policy (parse_requirement context.ruleset_configuration) s _ λ requirement _.
          Ensures-reading _ (Ensures-ok _ s _ (map_optional-Reads _ s)) λ keyed.
            Ensures-elim keyed s _ _
              (λ _. Ensures-reading _ (Ensures-ok _ s _ (map_optional-Reads _ s)) λ existing.
                Ensures-elim existing s _ _
                  (λ _. reserve_new-IsFree g id now input context requirement s)
                  λ found _. committed (inl refl))
              λ found _. Ensures-throw_if _ _ s _ λ _. committed (inl refl))

module _ (g : Platform) (now : ℕ) (input : AdminRefundInput) where
  refund_one-NeverCommits :
      (r : ReservationRecord) (s : FinanceStore) → NeverCommits (refund_one g now input r s)
  unfolding refund_one refund_posting
  refund_one-NeverCommits r s = Ensures-throw_if _ _ s _ λ _.
      Ensures-after
        (Ensures-with_ledger {P = λ _ _. ⊥} {Q = λ _ _. ⊥} s (refund-NeverCommits g _ _ s.ledger)
          λ t l none_committed. none_committed)
        λ t s1 none_committed. absurd none_committed

  refund_all-Reads :
      (rs : List ReservationRecord) (s : FinanceStore)
      → Ensures (λ done t. (done ≡ []) × (t ≡ s)) (refund_all g now input rs s)
  unfolding refund_all
  refund_all-Reads [] s = committed (refl, refl)
  refund_all-Reads (r ∷ rs) s =
      Ensures-after (refund_one-NeverCommits r s) λ t s1 none_committed. absurd none_committed

-- Whatever `refund` of the reservations of a match commits, it has refunded none and writes nothing.
pub refund_match-RefundsNone :
    (g : Platform) (now : ℕ) (input : AdminRefundInput) (s : FinanceStore)
    → Ensures (λ views t. (views ≡ []) × (t ≡ s)) (refund_match g now input s)
unfolding refund_match list_refundable
refund_match-RefundsNone g now input s = Ensures-ok _ s _ (
    Ensures-throw_if _ _ s _ λ _. Ensures-reading _ (Ensures-ok _ s _ (map_rows-Reads _ s)) λ rows.
      Ensures-after (refund_all-Reads g now input rows s)
        λ done t (no_rows, same). committed (rw no_rows refl, same))
