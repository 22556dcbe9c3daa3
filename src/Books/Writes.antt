-- ===== src/Books/Writes.antt =====
-- The loop of `reverse` (packages/wallet/src/infrastructure/prisma-wallet-repository.ts) that writes
-- the balances of the reversing entries.
use arena_core.Prelude.{
  ℕ, ◌≡◌, refl, true, false, none, some, List, [], ◌∷◌, arith, ◌==◌, if◌then◌else◌, contains,
  distinct, Bool-cases, inl, inr, All,
}
use arena_core.Prelude.Int.{ℤ, pos, ◌+ℤ◌, ◌-ℤ◌, int_laws}
use arena_core.Prelude.Guarded.{Guarded, passed, Guarded-after}
use arena_core.Prelude.Outcome.{ok, after}
use arena_core.Ledger.{Ledger, LedgerEntry, entry_account_ids, account_by_id, write_balance}
use arena_core.Wallet.Policies.{WalletErrorCode}
use arena_core.Wallet.Posting.{entries_balance, signed, write_entries}
use arena_core.Books.Invariant.{
  Pending, BooksUpTo, write_balance-BooksUpTo, account_by_id-write, account_by_id-write_none,
}
use arena_core.Books.Tables.{BooksUpTo-pending}
use arena_core.Books.Rows.{set_balance-Guarded}
use arena_core.Books.Entries.{CanWrite}

-- The state after the loop of `reverse`.
unfoldable pub written : List LedgerEntry → Ledger → Ledger
written [] l = l
written (e ∷ es) l = written es (write_balance e.account_id e.balance_after l)

CanWrite-other :
    (id : ℕ) (v : ℤ) (l : Ledger) (e : LedgerEntry)
    → (e.account_id == id) ≡ false
    → CanWrite l e
    → CanWrite (write_balance id v l) e
CanWrite-other id v l e apart (a, found, moves, fine) =
    (a, ground (arith, account_by_id-write id e.account_id v l), moves, fine)

All-CanWrite-other :
    (id : ℕ) (v : ℤ) (l : Ledger) (es : List LedgerEntry)
    → contains (entry_account_ids es) id ≡ false
    → All (CanWrite l) es
    → All (CanWrite (write_balance id v l)) es
All-CanWrite-other id v l [] apart h = tt
All-CanWrite-other id v l (e ∷ es) apart h =
    (CanWrite-other id v l e (ground arith) h.0, All-CanWrite-other id v l es (ground arith) h.1)

pub write_entries-Guarded :
    (es : List LedgerEntry) (l : Ledger)
    → All (CanWrite l) es
    → distinct (entry_account_ids es) ≡ true
    → Guarded (ok (tt, written es l)) (write_entries es l)
unfolding write_entries written after
write_entries-Guarded [] l h d = passed
write_entries-Guarded (e ∷ es) l (c, h) d =
    Guarded-after (λ _. write_entries es)
      (set_balance-Guarded {C = WalletErrorCode} e.account_id e.balance_after l c.0 c.1)
      (written_rest (
        write_entries-Guarded es (write_balance e.account_id e.balance_after l)
          (All-CanWrite-other e.account_id e.balance_after l es (ground arith) h) (ground arith)))
  where
    written_rest :
        Guarded
          (ok (tt, written es (write_balance e.account_id e.balance_after l)))
          (write_entries es (write_balance e.account_id e.balance_after l))
        → Guarded
            (ok (tt, written es (write_balance e.account_id e.balance_after l)))
            (after (ok (tt, write_balance e.account_id e.balance_after l)) (λ _. write_entries es))
    written_rest h = h

moved_amount : (p v b s r : ℤ) → v ≡ b +ℤ s → p +ℤ (v -ℤ b) +ℤ r ≡ p +ℤ (s +ℤ r)
moved_amount p v b s r h = rw h (omega int_laws)

pending_step :
    (e : LedgerEntry) (balance p r : ℤ) (x : ℕ)
    → e.balance_after ≡ balance +ℤ signed e
    → (if e.account_id == x then p +ℤ (e.balance_after -ℤ balance) else p) +ℤ r
      ≡ p +ℤ ((if e.account_id == x then signed e else pos 0) +ℤ r)
pending_step e balance p r x h = elim (Bool-cases (e.account_id == x)) [
  | inl here ↦ rw here (moved_amount p e.balance_after balance (signed e) r h)
  | inr there ↦ rw there (omega int_laws)
]

-- The loop leaves the written entries pending.
pub written-BooksUpTo :
    (es : List LedgerEntry) (pend : Pending) (l : Ledger)
    → All (CanWrite l) es
    → distinct (entry_account_ids es) ≡ true
    → BooksUpTo pend l
    → BooksUpTo (λ x. pend x +ℤ entries_balance x es) (written es l)
unfolding written entries_balance
written-BooksUpTo [] pend l h d b = BooksUpTo-pending pend _ l (λ x. omega int_laws) b
written-BooksUpTo (e ∷ es) pend l (c, h) d b =
    let l' = write_balance e.account_id e.balance_after l in
    BooksUpTo-pending _ _ (written es l')
      (λ x. pending_step e c.0.current_balance (pend x) (entries_balance x es) x c.2)
      (written-BooksUpTo es _ l'
        (All-CanWrite-other e.account_id e.balance_after l es (ground arith) h) (ground arith)
        (write_balance-BooksUpTo e.account_id e.balance_after l pend c.0 c.1 c.3 b))

pub written-absent :
    (es : List LedgerEntry) (x : ℕ) (l : Ledger)
    → account_by_id x (written es l) ≡ none
    → account_by_id x l ≡ none
unfolding written
written-absent [] x l h = h
written-absent (e ∷ es) x l h =
    account_by_id-write_none e.account_id x e.balance_after l
      (written-absent es x (write_balance e.account_id e.balance_after l) h)

pub entries_balance-absent :
    (es : List LedgerEntry) (x : ℕ) (l : Ledger)
    → All (CanWrite l) es
    → account_by_id x l ≡ none
    → entries_balance x es ≡ pos 0
unfolding entries_balance
entries_balance-absent [] x l h gone = refl
entries_balance-absent (e ∷ es) x l (c, h) gone = elim (Bool-cases (e.account_id == x)) [
  | inl here ↦
      let same : e.account_id ≡ x = ground arith in
      let f : account_by_id e.account_id l ≡ some c.0 = c.1 in cc
  | inr there ↦ rw (there, entries_balance-absent es x l h gone) (omega int_laws)
]
