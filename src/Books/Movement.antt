-- ===== src/Books/Movement.antt =====
-- An amount that moves between two accounts by two entries, and the invariant of the books.
use arena_core.Prelude.{
  ℕ, ◌≡◌, ◌∙◌, Bool, true, false, none, some, List, [], ◌∷◌, arith, ◌==◌, if◌then◌else◌, Bool-cases,
  inl, inr,
}
use arena_core.Prelude.Int.{ℤ, pos, ◌+ℤ◌, ◌-ℤ◌, ◌≤ℤ◌, int_laws, +ℤ_parts}
use arena_core.Prelude.Guarded.{Guarded, passed, refused}
use arena_core.Prelude.Outcome.{throw_if, Ensures-map, ok, Ensures, or_throw, Ensures-ok, after}
use arena_core.Ledger.{
  Ledger, LedgerAccount, LedgerEntry, LedgerTransaction, LedgerDirection, is_user_available,
  account_by_id, write_balance, Platform, create_audit_event, create_transaction, WalletAuditEvent,
  balance_of, update_balance_if, opposite, account_checks, with_balance,
}
use arena_core.Wallet.Policies.{assert_balanced, side_total}
use arena_core.Wallet.Posting.{entries_balance, entry}
use arena_core.Wallet.Repository.{map_transaction, sort_by_account, number_from}
use arena_core.Books.Invariant.{
  Pending, BooksUpTo, IsSound, settled, shift, write_balance-BooksUpTo, account_by_id-write,
  account_by_id-write_none,
}
use arena_core.Books.Tables.{BooksUpTo-other_tables, BooksUpTo-pending}
use arena_core.Books.Rows.{create_transaction-Booked}
use arena_core.Books.Sums.{
  entries_balance-sort, entries_balance-number, assert_balanced-sorted, assert_balanced-number,
}
use arena_core.Books.Steps.{absent_elsewhere, map_transaction-reads, moved}

-- Two entries, one on each side, on two accounts: the books after the two writes.
module _ (s : Ledger) (u v : LedgerAccount) (direction : LedgerDirection)
    (amount after_u after_v : ℤ) where
  -- The state after both balances are written.
  abbrev pub both_written : Ledger
  both_written = write_balance v.id after_v (write_balance u.id after_u s)

  abbrev pub two_entries : List LedgerEntry
  two_entries =
      entry u.id direction amount after_u ∷ entry v.id (opposite direction) amount after_v ∷ []

  pub record Moving : Type 0 where
    pub sound : IsSound s
    pub at_u : account_by_id u.id s ≡ some u
    pub at_v : account_by_id v.id s ≡ some v
    pub apart : (u.id == v.id) ≡ false
    pub positive : pos 1 ≤ℤ amount
    pub u_moves : after_u ≡ u.current_balance +ℤ moved direction amount
    pub v_moves : after_v ≡ v.current_balance +ℤ moved (opposite direction) amount
    pub u_solvent : is_user_available u.type ≡ true → pos 0 ≤ℤ after_u
    pub v_solvent : is_user_available v.type ≡ true → pos 0 ≤ℤ after_v

  pub second_found : Moving → account_by_id v.id (write_balance u.id after_u s) ≡ some v
  second_found m = ground (arith, account_by_id-write u.id v.id after_u s, m.at_v, m.apart)

  abbrev pub both_pending : Pending
  both_pending =
      shift (shift settled u.id (after_u -ℤ u.current_balance)) v.id (after_v -ℤ v.current_balance)

  pub both_written-BooksUpTo : Moving → BooksUpTo both_pending both_written
  both_written-BooksUpTo m =
      write_balance-BooksUpTo v.id after_v (write_balance u.id after_u s) _ v (second_found m)
        m.v_solvent (write_balance-BooksUpTo u.id after_u s settled u m.at_u m.u_solvent m.sound)

  pub two_entries-balanced : Moving → assert_balanced two_entries ≡ ok tt
  unfolding assert_balanced side_total entry
  two_entries-balanced m = ground (arith, +ℤ_parts amount (pos 0))

  pub both_settled : Moving → (x : ℕ) → both_pending x -ℤ entries_balance x two_entries ≡ settled x
  unfolding entries_balance entry
  both_settled m x = grind (int_laws, m.u_moves, m.v_moves, m.apart)

  pub absent-two_entries :
      (x : ℕ) → Moving → account_by_id x both_written ≡ none → entries_balance x two_entries ≡ pos 0
  unfolding entries_balance entry
  absent-two_entries x m absent =
      let gone : account_by_id x s ≡ none =
        account_by_id-write_none u.id x after_u s
          (account_by_id-write_none v.id x after_v (write_balance u.id after_u s) absent) in
      rw (absent_elsewhere u x s gone m.at_u, absent_elsewhere v x s gone m.at_v) (omega int_laws)

  -- A transaction with these two entries, in any order, settles the books.
  pub create_moving-IsSound :
      {C : Type 0} (g : Platform) (row : ℕ → LedgerTransaction) (es : List LedgerEntry)
      → ((id : ℕ) → (row id).entries ≡ es)
      → ((x : ℕ) → entries_balance x es ≡ entries_balance x two_entries)
      → assert_balanced es ≡ ok tt
      → Moving
      → Ensures (λ _ l. IsSound l) (create_transaction {C = C} g row both_written)
  create_moving-IsSound g row es same sums balanced m =
      Ensures-map
        (create_transaction-Booked g row both_pending es both_written same balanced
          (λ x absent. sums x ∙ absent-two_entries x m absent) (both_written-BooksUpTo m))
        λ t l r. BooksUpTo-pending _ settled l (λ x. rw (sums x) (both_settled m x)) r.0

  pub create_sorted-IsSound :
      {C : Type 0} (g : Platform) (row : ℕ → LedgerTransaction)
      → ((id : ℕ) → (row id).entries ≡ number_from 1 (sort_by_account two_entries))
      → Moving
      → Ensures (λ _ l. IsSound l) (create_transaction {C = C} g row both_written)
  create_sorted-IsSound g row same m =
      create_moving-IsSound g row (number_from 1 (sort_by_account two_entries)) same
        (λ x.
          entries_balance-number x 1 (sort_by_account two_entries)
          ∙ entries_balance-sort x two_entries)
        (assert_balanced-sorted two_entries (two_entries-balanced m)) m

  pub create_numbered-IsSound :
      {C : Type 0} (g : Platform) (row : ℕ → LedgerTransaction)
      → ((id : ℕ) → (row id).entries ≡ number_from 1 two_entries)
      → Moving
      → Ensures (λ _ l. IsSound l) (create_transaction {C = C} g row both_written)
  create_numbered-IsSound g row same m =
      create_moving-IsSound g row (number_from 1 two_entries) same
        (λ x. entries_balance-number x 1 two_entries)
        (assert_balanced-number 1 two_entries (two_entries-balanced m)) m

pub balance_of-ok :
    {C : Type 0} (id : ℕ) (l : Ledger) (a : LedgerAccount)
    → account_by_id id l ≡ some a
    → balance_of {C = C} id l ≡ ok (a.current_balance, l)
unfolding balance_of after or_throw
balance_of-ok id l a found = rw found

pub update_balance_if-ok :
    {C : Type 0} (id : ℕ) (test : LedgerAccount → Bool) (value : LedgerAccount → ℤ) (l : Ledger)
    (a : LedgerAccount)
    → account_by_id id l ≡ some a
    → (test a ≡ true → account_checks (with_balance (value a) a) ≡ true)
    → update_balance_if {C = C} id test value l
      ≡ (if test a then ok (1, write_balance id (value a) l) else ok (0, l))
unfolding update_balance_if after throw_if
update_balance_if-ok id test value l a found valid = elim (Bool-cases (test a)) [
  | inl passes ↦ let checks = valid passes in rw (found, passes, checks)
  | inr fails ↦ rw (found, fails)
]

pub update_balance_if-Guarded :
    {C : Type 0} (id : ℕ) (test : LedgerAccount → Bool) (value : LedgerAccount → ℤ) (l : Ledger)
    (a : LedgerAccount)
    → account_by_id id l ≡ some a
    → Guarded
        (if test a then ok (1, write_balance id (value a) l) else ok (0, l))
        (update_balance_if {C = C} id test value l)
unfolding update_balance_if after throw_if
update_balance_if-Guarded id test value l a found =
    elim (Bool-cases (account_checks (with_balance (value a) a))) [
      | inl checks ↦ rw (update_balance_if-ok id test value l a found (λ _. checks)) passed
      | inr fails ↦ elim (Bool-cases (test a)) [
        | inl passes ↦ rw (found, passes, fails) refused
        | inr differs ↦ rw (found, differs) passed
      ]
    ]

pub update_balance_if-missing :
    {C : Type 0} (id : ℕ) (test : LedgerAccount → Bool) (value : LedgerAccount → ℤ) (l : Ledger)
    → account_by_id id l ≡ none
    → update_balance_if {C = C} id test value l ≡ ok (0, l)
unfolding update_balance_if after
update_balance_if-missing id test value l missing = rw missing

pub Ensures-audited :
    (t : LedgerTransaction) (e : WalletAuditEvent) (l : Ledger)
    → IsSound l
    → Ensures (λ _ s. IsSound s) (after (create_audit_event e l) (λ _. map_transaction t))
unfolding create_audit_event
Ensures-audited t e l h = Ensures-ok _ _ _ (
    Ensures-map (map_transaction-reads t _)
      λ p s same. rw same (BooksUpTo-other_tables settled l l.wallets _ h))
