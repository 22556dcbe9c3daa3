-- ===== src/Books/Reversal.antt =====
-- `reverse` (packages/wallet/src/infrastructure/prisma-wallet-repository.ts) keeps the invariant of
-- the books.
use arena_core.Prelude.{
  ℕ, ◌≡◌, refl, ◌∙◌, true, Option, none, some, List, [], ◌∷◌, arith, ◌==◌, distinct, Bool-cases,
  Option-cases, inl, inr, All, All-find,
}
use arena_core.Prelude.Int.{pos, ◌+ℤ◌, int_laws}
use arena_core.Prelude.Guarded.{Ensures-Guarded-after}
use arena_core.Prelude.Outcome.{
  Ensures-map, ok, Ensures, committed, rolled_back, Ensures-after, Ensures-or_throw,
  Ensures-throw_if, Ensures-ok,
}
use arena_core.Ledger.{
  Ledger, LedgerEntry, LedgerTransaction, entry_account_ids, account_by_id, Platform,
  transaction_by_id, transaction_by_key, create_transaction,
}
use arena_core.Prelude.Outcome.{or_throw, ◌>>=◌, ◌>>◌}
use arena_core.Ledger.{
  Failure, WalletRow, create_audit_event, record_not_found, requested, transaction_reversed,
  wallet_of_user,
}
use arena_core.Wallet.Repository.{map_transaction}
use arena_core.Wallet.Policies.{assert_balanced, WalletErrorCode}
use arena_core.Wallet.Posting.{
  entries_balance, derived_balance, write_entries, reverse_new, reverse, reversal_row, mark_rows,
  mark_reversed, wallet_or_throw,
}
use arena_core.Wallet.Repository.{
  WalletTx, PostedTransaction, ReverseLedgerInput, sort_by_account, number_from,
}
use arena_core.Books.Invariant.{IsSound, IsProper, settled}
use arena_core.Books.Tables.{BooksUpTo-pending}
use arena_core.Books.Rows.{create_transaction-Booked}
use arena_core.Books.Steps.{Ensures-rethrown}
use arena_core.Books.Movement.{Ensures-audited}
use arena_core.Books.Posting.{replay-reads}
use arena_core.Books.Sums.{entries_balance-number, assert_balanced-sorted}
use arena_core.Books.Entries.{CanWrite, Mirrors, reversed_entries-Mirrors, All-sort, distinct-sort}
use arena_core.Books.Writes.{
  written, write_entries-Guarded, written-BooksUpTo, written-absent, entries_balance-absent,
}

-- Marking the original changes no entry.
mark_rows-derived :
    (x id now : ℕ) (ts : List LedgerTransaction)
    → derived_balance x (mark_rows id now ts) ≡ derived_balance x ts
unfolding derived_balance mark_rows
mark_rows-derived x id now [] = refl
mark_rows-derived x id now (t ∷ ts) = ground (arith, mark_rows-derived x id now ts)

mark_rows-IsProper :
    (id now : ℕ) (ts : List LedgerTransaction)
    → All IsProper ts
    → All IsProper (mark_rows id now ts)
unfolding mark_rows
mark_rows-IsProper id now [] h = tt
mark_rows-IsProper id now (t ∷ ts) h = elim (Bool-cases (t.id == id)) [
  | inl here ↦ rw here (h.0, mark_rows-IsProper id now ts h.1)
  | inr there ↦ rw there (h.0, mark_rows-IsProper id now ts h.1)
]

marked-IsSound :
    (id now : ℕ) (l : Ledger)
    → IsSound l
    → IsSound (record l { transactions = mark_rows id now l.transactions })
unfolding account_by_id
marked-IsSound id now l h = record {
  unique = h.unique;
  balances = λ x a e. rw (mark_rows-derived x id now l.transactions) (h.balances x a e);
  solvent = h.solvent;
  owned = h.owned;
  known = λ x e. rw (mark_rows-derived x id now l.transactions) (h.known x e);
  proper = mark_rows-IsProper id now l.transactions h.proper;
}

mark_reversed-IsSound :
    (id now : ℕ) (l : Ledger) → IsSound l → Ensures (λ _ s. IsSound s) (mark_reversed id now l)
unfolding mark_reversed
mark_reversed-IsSound id now l h = Ensures-ok _ l _ (
    Ensures-or_throw _ _ l _
      λ t _. Ensures-throw_if _ _ l _ λ _. committed (marked-IsSound id now l h))

-- A mirror image of balanced entries is balanced.
Mirrors-balanced :
    (es fs : List LedgerEntry)
    → Mirrors es fs
    → assert_balanced es ≡ ok tt
    → assert_balanced fs ≡ ok tt
unfolding assert_balanced
Mirrors-balanced es fs (c, d, n, _) h = rw (c, d, n) (ground arith)

-- The writes of `reverse`, after all its checks.
reverse_written :
    (g : Platform) (input : ReverseLedgerInput) (original : LedgerTransaction)
    (fs : List LedgerEntry) (l : Ledger)
    → IsSound l
    → IsProper original
    → All (CanWrite l) fs
    → Mirrors original.entries fs
    → Ensures
        (λ _ s. IsSound s)
        (create_transaction {C = WalletErrorCode} g
          (reversal_row input original (sort_by_account fs))
          (written (sort_by_account fs) l))
unfolding reversal_row
reverse_written g input original fs l h (balanced, apart) can mirrors =
    let ordered = sort_by_account fs in
    let can' = All-sort (CanWrite l) fs can in
    let apart' : distinct (entry_account_ids ordered) ≡ true =
      distinct-sort fs ∙ rw mirrors.3 apart in
    Ensures-map
      (create_transaction-Booked g _ (λ x. pos 0 +ℤ entries_balance x ordered)
        (number_from 1 ordered) (written ordered l) (λ id. refl)
        (assert_balanced-sorted fs (Mirrors-balanced original.entries fs mirrors balanced))
        (λ x absent.
          entries_balance-number x 1 ordered
          ∙ entries_balance-absent ordered x l can' (written-absent ordered x l absent))
        (written-BooksUpTo ordered settled l can' apart' h))
      λ t s r.
        BooksUpTo-pending _ settled s
          (λ x. rw (entries_balance-number x 1 ordered) (omega int_laws)) r.0

or_throw-reads :
    {A : Type 0} (o : Option A) (l : Ledger)
    → Ensures (λ _ s. s ≡ l) (or_throw {E = Failure WalletErrorCode} o record_not_found l)
unfolding or_throw
or_throw-reads none l = rolled_back
or_throw-reads (some a) l = committed refl

original-IsProper :
    (id : ℕ) (l : Ledger) (t : LedgerTransaction)
    → transaction_by_id id l ≡ some t
    → IsSound l
    → IsProper t
unfolding transaction_by_id
original-IsProper id l t e h = (All-find IsProper (λ r. r.id == id) l.transactions h.proper e).0

wallet_or_throw-reads :
    (user_id : ℕ) (l : Ledger) → Ensures (λ _ s. s ≡ l) (wallet_or_throw user_id l)
unfolding wallet_or_throw
wallet_or_throw-reads user_id l = Ensures-ok _ l _ (or_throw-reads (wallet_of_user user_id l) l)

-- What `reverse` does after all its checks.
abbrev reverse_writes :
    Platform
    → ReverseLedgerInput
    → LedgerTransaction
    → List LedgerEntry
    → WalletRow
    → WalletTx PostedTransaction
reverse_writes g input original fs w = do
  write_entries (sort_by_account fs)
  transaction ← create_transaction g (reversal_row input original (sort_by_account fs))
  mark_reversed original.id input.now
  create_audit_event (record {
    wallet_id = w.id;
    actor_user_id = input.actor_user_id;
    action = transaction_reversed;
    reason_code = requested input.reason_code;
    transaction_id = some transaction.id;
    note = input.note;
  })
  map_transaction transaction

reverse_committed :
    (g : Platform) (input : ReverseLedgerInput) (original : LedgerTransaction)
    (fs : List LedgerEntry) (w : WalletRow) (l : Ledger)
    → IsSound l
    → IsProper original
    → All (CanWrite l) fs
    → Mirrors original.entries fs
    → Ensures (λ _ s. IsSound s) (reverse_writes g input original fs w l)
reverse_committed g input original fs w l h p can mirrors =
    Ensures-Guarded-after _
      (write_entries-Guarded (sort_by_account fs) l (All-sort (CanWrite l) fs can)
        (distinct-sort fs ∙ rw mirrors.3 p.1))
      (Ensures-ok _ _ _ (
        Ensures-after (reverse_written g input original fs l h p can mirrors) λ t s k.
          Ensures-after (mark_reversed-IsSound original.id input.now s k)
            λ _ s2 k2. Ensures-audited t _ s2 k2))

reverse_new-IsSound :
    (g : Platform) (input : ReverseLedgerInput) (l : Ledger)
    → IsSound l
    → Ensures (λ _ s. IsSound s) (reverse_new g input l)
unfolding reverse_new
reverse_new-IsSound g input l h = Ensures-ok _ l _ (
    Ensures-or_throw _ _ l _ λ original found. Ensures-ok _ l _ (
      Ensures-throw_if _ _ l _ λ _. Ensures-ok _ l _ (
        Ensures-or_throw _ _ l _ λ e _. Ensures-ok _ l _ (
          Ensures-or_throw _ _ l _ λ u _. Ensures-ok _ l _ (
            Ensures-or_throw _ _ l _ λ f _. Ensures-after (wallet_or_throw-reads u l) λ w s same.
              rw same (
                Ensures-throw_if _ _ l _ λ _.
                  Ensures-after (reversed_entries-Mirrors original.entries l) λ fs s' r. rw r.0 (
                    reverse_committed g input original fs w l h
                      (original-IsProper input.transaction_id l original found h) r.1 r.2)))))))

-- From sound books, `reverse` commits sound books.
pub reverse-IsSound :
    (g : Platform) (input : ReverseLedgerInput) (l : Ledger)
    → IsSound l
    → Ensures (λ _ s. IsSound s) (reverse g input l)
unfolding reverse
reverse-IsSound g input l h =
    Ensures-rethrown (elim (Option-cases (transaction_by_key input.idempotency_key l)) [
      | inl missing ↦ rw missing (reverse_new-IsSound g input l h)
      | inr (t, present) ↦
          rw present (Ensures-map (replay-reads input.fingerprint t l) λ _ s same. rw same h)
    ])
