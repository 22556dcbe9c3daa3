-- ===== src/Books/Settlement.antt =====
-- `postSettlement`
-- (packages/match-finance/src/infrastructure/prisma-match-settlement-ledger-adapter.ts) keeps the
-- invariant of the books: what it takes from the escrow is what it credits the recipients.
use arena_core.Prelude.{
  ℕ, suc, ◌≡◌, refl, ap, true, false, some, none, List, [], ◌∷◌, arith, ◌==◌, Bool-cases,
  Option-cases, inl, inr, length, All,
}
use arena_core.Prelude.Int.{ℤ, pos, ◌+ℤ◌, ◌-ℤ◌, ◌≤ℤ◌, int_laws}
use arena_core.Prelude.Guarded.{Ensures-Guarded-after}
use arena_core.Prelude.Outcome.{Ensures, committed, Ensures-after, Ensures-or_throw, Ensures-ok}
use arena_core.Ledger.{Ledger, LedgerAccount, LedgerEntry, account_by_id, credit, write_balance}
use arena_core.Wallet.Policies.{side_total}
use arena_core.Wallet.Posting.{entry, entries_balance}
use arena_core.Finance.Types.{SettlementReservation, MatchSettlementErrorCode}
use arena_core.Finance.Adapter.{Recipient, credit_recipients}
use arena_core.Books.Invariant.{
  Pending, BooksUpTo, shift, account_by_id-write_none, write_balance-BooksUpTo,
}
use arena_core.Books.Tables.{BooksUpTo-pending}
use arena_core.Books.Escrow.{increment_balance-Guarded, increment_balance-missing}

abbrev pub paid : List Recipient → ℤ
paid [] = pos 0
paid ((r, amount) ∷ rs) = amount +ℤ paid rs

abbrev pub NonNegative : Recipient → Type 0
NonNegative (r, amount) = pos 0 ≤ℤ amount

-- The books after the loop over the recipients: their entries are pending.
pub record Credited (pend : Pending) (l : Ledger) (rs : List Recipient) (es : List LedgerEntry)
    (l' : Ledger) : Type 0 where
  pub books : BooksUpTo (λ x. pend x +ℤ entries_balance x es) l'
  pub absent :
      (x : ℕ)
      → account_by_id x l' ≡ none
      → (account_by_id x l ≡ none) × (entries_balance x es ≡ pos 0)
  pub credits : side_total true es ≡ paid rs
  pub debits : side_total false es ≡ pos 0
  pub count : length es ≡ length rs

module _ (pend : Pending) (l : Ledger) (id : ℕ) (amount : ℤ) (a : LedgerAccount) where
  abbrev credited : Ledger
  credited = write_balance id (a.current_balance +ℤ amount) l

  abbrev credited_pending : Pending
  credited_pending = shift pend id ((a.current_balance +ℤ amount) -ℤ a.current_balance)

  present_elsewhere :
      (x : ℕ) → account_by_id id l ≡ some a → account_by_id x l ≡ none → (id == x) ≡ false
  present_elsewhere x found gone = elim (Bool-cases (id == x)) [
    | inl same ↦ let e : id ≡ x = ground arith in cc
    | inr other ↦ other
  ]

  credit_one :
      (r : SettlementReservation) (rs : List Recipient) (es : List LedgerEntry) (l' : Ledger)
      → account_by_id id l ≡ some a
      → Credited credited_pending credited rs es l'
      → Credited pend l
          ((r, amount) ∷ rs)
          (entry id credit amount (a.current_balance +ℤ amount) ∷ es)
          l'
  unfolding entries_balance entry side_total
  credit_one r rs es l' found k = record {
    books = BooksUpTo-pending _ _ l' (λ x. grind int_laws) k.books;
    absent = λ x gone.
        let (gone1, nothing) = k.absent x gone in
        let gone0 = account_by_id-write_none id x (a.current_balance +ℤ amount) l gone1 in
        (gone0, rw (present_elsewhere x found gone0, nothing) (omega int_laws));
    credits = ap (λ z. amount +ℤ z) k.credits;
    debits = k.debits;
    count = ap suc k.count;
  }

pub credit_recipients-Credited :
    (rs : List Recipient) (pend : Pending) (l : Ledger)
    → All NonNegative rs
    → BooksUpTo pend l
    → Ensures (Credited pend l rs) (credit_recipients rs l)
unfolding credit_recipients entries_balance side_total
credit_recipients-Credited [] pend l nonneg h = committed (record {
  books = BooksUpTo-pending _ _ l (λ x. omega int_laws) h;
  absent = λ x gone. (gone, refl);
  credits = refl;
  debits = refl;
  count = refl;
})
credit_recipients-Credited ((r, amount) ∷ rs) pend l (p, nonneg) h =
    Ensures-or_throw _ _ l _ λ id _. elim (Option-cases (account_by_id id l)) [
      | inl missing ↦ increment_balance-missing id amount l _ missing
      | inr (a, found) ↦
          Ensures-Guarded-after _
            (increment_balance-Guarded {C = MatchSettlementErrorCode} id amount l a found)
            (Ensures-ok _ _ _ (
              Ensures-after
                (credit_recipients-Credited rs (credited_pending pend l id amount a)
                  (credited pend l id amount a) nonneg
                  (write_balance-BooksUpTo id (a.current_balance +ℤ amount) l pend a found
                    (λ u. omega (int_laws, h.solvent id a found u, p)) h))
                λ es l' k. committed (credit_one pend l id amount a r rs es l' found k)))
    ]
