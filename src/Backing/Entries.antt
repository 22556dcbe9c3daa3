-- ===== src/Backing/Entries.antt =====
-- `MatchEntryReservationService` and `MatchEscrowService` (packages/match-finance/src/application), and
-- the invariant of the match finance tables.
use arena_core.Prelude.{
  ℕ, ◌≡◌, refl, Bool, true, false, Option, some, none, List, [], ◌∷◌, arith, Bool-cases, inl, inr,
  Text,
}
use arena_core.Prelude.Int.{ℤ, pos, int_laws}
use arena_core.Prelude.Outcome.{
  Outcome, ok, throw, Ensures, committed, rolled_back, Ensures-after, Ensures-throw_if,
  Ensures-or_throw, Ensures-ok, Ensures-both, Ensures-reading, Ensures-elim, after,
}
use arena_core.Ledger.{Platform}
use arena_core.Wallet.Amount.{digits_value}
use arena_core.Finance.Types.{FinanceError}
use arena_core.Finance.Requirement.{
  EntryRequirement, parse_requirement, IsConsistent, parse_requirement-IsConsistent,
}
use arena_core.Finance.Adapter.{ReservationPosting}
use arena_core.Finance.Store.{FinanceStore, ReservationRow}
use arena_core.Finance.Repository.{
  FinanceContext, RepositoryTx, map_row, map_optional, map_rows, find_reservation_by_key,
  find_by_participant, find_context_by_participant, list_contexts,
}
use arena_core.Finance.Writes.{new_row}
use arena_core.Finance.Entries.{
  ReserveEntryInput, policy, entry_posting, entry_input, reserve_new, replay_entry, reserve_unkeyed,
  reserve_entry, assert_participant_entry_satisfied, assert_each_satisfied,
  assert_match_entry_satisfied,
}
use arena_core.Books.Escrow.{reserve-IsSound}
use arena_core.Backing.Escrows.{nothing}
use arena_core.Backing.Transfers.{only}
use arena_core.Backing.Reserving.{HasAccountsOf, reserve-Reserved}
use arena_core.Backing.Held.{held_by, IsLinked}
use arena_core.Backing.Invariant.{
  IsBackedUpTo, IsBacked, IsBackedUpTo-change, Ensures-with_ledger, moved-IsBackedUpTo,
  create-Inserted, Inserted-IsBackedUpTo,
}

-- A transaction that commits the state that it starts in.
abbrev pub Reads : {E A : Type 0} → Outcome E (A × FinanceStore) → FinanceStore → Type 0
Reads r s = Ensures (λ _ t. t ≡ s) r

pub map_row-Reads : (row : ReservationRow) (s : FinanceStore) → Reads (map_row row s) s
unfolding map_row
map_row-Reads row s = Ensures-throw_if _ _ s _ λ _. committed refl

pub map_optional-Reads :
    (row : Option ReservationRow) (s : FinanceStore) → Reads (map_optional row s) s
unfolding map_optional
map_optional-Reads none s = committed refl
map_optional-Reads (some row) s = Ensures-reading _ (map_row-Reads row s) λ r. committed refl

pub map_rows-Reads : (rows : List ReservationRow) (s : FinanceStore) → Reads (map_rows rows s) s
unfolding map_rows
map_rows-Reads [] s = committed refl
map_rows-Reads (row ∷ rows) s =
    Ensures-reading _ (map_row-Reads row s)
      λ r. Ensures-reading _ (map_rows-Reads rows s) λ rs. committed refl

pub Ensures-policy :
    {A B : Type 0} {Q : B → FinanceStore → Type 0} (r : Outcome FinanceError A) (s : FinanceStore)
    (k : A → RepositoryTx B)
    → ((a : A) → r ≡ ok a → Ensures Q (k a s))
    → Ensures Q (after (policy r s) k)
unfolding policy after
Ensures-policy (ok a) s k h = h a refl
Ensures-policy (throw e) s k h = rolled_back

abbrev entry_with : Text → Bool → EntryRequirement
entry_with text required = record { amount_per_participant = text; required = required }

policy-Reads : {A : Type 0} (r : Outcome FinanceError A) (s : FinanceStore) → Reads (policy r s) s
unfolding policy
policy-Reads (ok a) s = committed refl
policy-Reads (throw e) s = rolled_back

module _ (g : Platform) (id now : ℕ) (input : ReserveEntryInput) (context : FinanceContext) where
  -- The row that follows the posting holds what the posting has moved.
  abbrev Awaits : EntryRequirement → Option ReservationPosting → FinanceStore → Type 0
  Awaits requirement posting s =
      let row = new_row (entry_input g id now input context requirement posting) in
      IsBackedUpTo (held_by row) s × IsLinked s.ledger row

  abbrev Posted : ℤ → ReservationPosting → FinanceStore → Type 0
  Posted amount p s =
      IsBackedUpTo (only context.match_id amount) s
      × HasAccountsOf context.match_id p.user_account_id p.escrow_account_id s.ledger

  entry_posting-Awaits :
      (text : Text) (required : Bool) (s : FinanceStore)
      → IsConsistent (entry_with text required)
      → IsBacked s
      → Ensures
          (Awaits (entry_with text required))
          (entry_posting g now input context (entry_with text required) s)
  unfolding entry_posting new_row
  entry_posting-Awaits text true s consistent h =
      let amount = pos (digits_value 0 text) in
      Ensures-after {P = Posted amount}
        (Ensures-with_ledger s
          (Ensures-both _ (reserve-IsSound g _ s.ledger (ground (arith, consistent)) h.sound)
            (reserve-Reserved g _ s.ledger h.sound h.indexed))
          λ p l (sound, (moves, accounts)). (
            IsBackedUpTo-change _ (only context.match_id amount) _ (λ m. omega int_laws)
                (moved-IsBackedUpTo nothing (only context.match_id amount) s l h sound moves),
            accounts,
          ))
        λ p s1 (k, accounts). committed (
          IsBackedUpTo-change _ _ s1 (λ m. ground arith) k,
          λ _. record {
            user_id = p.user_account_id;
            escrow_id = p.escrow_account_id;
            tells_user = refl;
            tells_escrow = refl;
            rows = accounts;
          },
        )
  entry_posting-Awaits text false s consistent h =
      committed (IsBackedUpTo-change nothing _ s (λ m. ground arith) h, λ e. absurd (ground arith))

  reserve_new-IsBacked :
      (requirement : EntryRequirement) (s : FinanceStore)
      → IsConsistent requirement
      → IsBacked s
      → Ensures (λ _ s'. IsBacked s') (reserve_new g id now input context requirement s)
  unfolding reserve_new
  reserve_new-IsBacked requirement s consistent h =
      Ensures-after
        (entry_posting-Awaits requirement.amount_per_participant requirement.required s consistent
          h)
        λ posting s1 (k, link).
          Ensures-after
            (create-Inserted (entry_input g id now input context requirement posting) s1)
            λ _ s2 inserted. committed (
              IsBackedUpTo-change _ nothing s2 (λ m. omega int_laws)
                (Inserted-IsBackedUpTo _ _ s1 s2 inserted link k))

-- Under the invariant, whatever `reserve` commits keeps it: a new reservation of a positive amount has
-- its points in the escrow of its match.
pub reserve_entry-IsBacked :
    (g : Platform) (id now : ℕ) (input : ReserveEntryInput) (s : FinanceStore)
    → IsBacked s
    → Ensures (λ _ s'. IsBacked s') (reserve_entry g id now input s)
unfolding reserve_entry replay_entry reserve_unkeyed find_reservation_by_key find_by_participant
reserve_entry-IsBacked g id now input s h = Ensures-ok _ s _ (
    Ensures-or_throw _ _ s _ λ context _. Ensures-throw_if _ _ s _ λ _.
      Ensures-throw_if _ _ s _ λ _.
        Ensures-policy (parse_requirement context.ruleset_configuration) s _ λ requirement parsed.
          let consistent = parse_requirement-IsConsistent context.ruleset_configuration parsed in
          Ensures-reading _ (Ensures-ok _ s _ (map_optional-Reads _ s)) λ keyed.
            Ensures-elim keyed s _ _
              (λ _. Ensures-reading _ (Ensures-ok _ s _ (map_optional-Reads _ s)) λ existing.
                Ensures-elim existing s _ _
                  (λ _. reserve_new-IsBacked g id now input context requirement s consistent h)
                  λ found _. committed h)
              λ found _. Ensures-throw_if _ _ s _ λ _. committed h)

assert_participant-Reads :
    (now match_id participant_id : ℕ) (s : FinanceStore)
    → Reads (assert_participant_entry_satisfied now match_id participant_id s) s
unfolding assert_participant_entry_satisfied find_by_participant
assert_participant-Reads now match_id participant_id s =
    Ensures-reading _ (Ensures-ok _ s _ (map_optional-Reads _ s)) λ reservation.
      Ensures-elim reservation s _ _
        (λ _. Ensures-ok _ s _ (
          Ensures-elim (find_context_by_participant match_id participant_id s) s _ _
            (λ _. policy-Reads _ s)
            λ context _.
              Ensures-policy (parse_requirement context.ruleset_configuration) s _ λ requirement _.
                elim (Bool-cases requirement.required) [
                  | inl needed ↦ rw needed (policy-Reads _ s)
                  | inr free ↦ rw free (committed refl)
                ]))
        λ found _. policy-Reads _ s

assert_each-Reads :
    (now match_id : ℕ) (contexts : List FinanceContext) (s : FinanceStore)
    → Reads (assert_each_satisfied now match_id contexts s) s
unfolding assert_each_satisfied
assert_each-Reads now match_id [] s = committed refl
assert_each-Reads now match_id (c ∷ cs) s =
    Ensures-reading _ (assert_participant-Reads now match_id c.participant_id s)
      λ _. assert_each-Reads now match_id cs s

-- The assertion that precedes a release changes nothing.
pub assert_match-Reads :
    (now match_id : ℕ) (s : FinanceStore) → Reads (assert_match_entry_satisfied now match_id s) s
unfolding assert_match_entry_satisfied
assert_match-Reads now match_id s =
    Ensures-ok _ s _
      (Ensures-throw_if _ _ s _ λ _. assert_each-Reads now match_id (list_contexts match_id s) s)
