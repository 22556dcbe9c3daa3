-- ===== src/Books/Distribution.antt =====
-- `postSettlement`
-- (packages/match-finance/src/infrastructure/prisma-match-settlement-ledger-adapter.ts) as a whole,
-- and the invariant of the books.
use arena_core.Prelude.{
  codes, ℕ, ◌≡◌, ◌<◌, refl, ◌∙◌, true, false, not, some, none, List, [], ◌∷◌, arith, ◌==◌,
  Bool-cases, Option-cases, inl, inr, length, All, distinct,
}
use arena_core.Prelude.Int.{ℤ, pos, ◌+ℤ◌, ◌-ℤ◌, ◌≤ℤ◌, int_laws, +ℤ_parts}
use arena_core.Prelude.Guarded.{Ensures-Guarded-after}
use arena_core.Prelude.Outcome.{
  ok, Ensures, committed, Ensures-after, Ensures-throw_if, Ensures-or_throw, Ensures-ok, after,
  throw_if, pure, ◌>>=◌, ◌>>◌,
}
use arena_core.Ledger.{
  Ledger, LedgerAccount, LedgerEntry, LedgerTransaction, account_by_id, debit,
  match_settlement_reference, Platform, LedgerTx, coded, write_balance, with_balance,
  create_transaction, update_balance_if, balance_of,
}
use arena_core.Wallet.Policies.{assert_balanced, side_total}
use arena_core.Wallet.Posting.{entry, entries_balance}
use arena_core.Wallet.Repository.{number_from}
use arena_core.Finance.Types.{
  SettlementReservation, MatchSettlementErrorCode, match_settlement_escrow_mismatch,
  match_settlement_result_invalid,
}
use arena_core.Finance.Adapter.{
  Recipient, recipients, total_amount, credit_recipients, PostSettlementInput, escrow_of, less,
  post_settlement, finance_row, is_empty, settlement_transaction_type,
}
use arena_core.Books.Invariant.{
  Pending, IsSound, settled, shift, account_by_id-write, account_by_id-write_none,
  write_balance-BooksUpTo,
}
use arena_core.Books.Tables.{BooksUpTo-pending}
use arena_core.Books.Rows.{create_transaction-Booked, account_by_id-id}
use arena_core.Books.Sums.{entries_balance-number, assert_balanced-number}
use arena_core.Books.Steps.{absent_elsewhere}
use arena_core.Books.Movement.{balance_of-ok, update_balance_if-Guarded, update_balance_if-missing}
use arena_core.Books.Settlement.{paid, NonNegative, Credited, credit_recipients-Credited}
use arena_core.Books.Payout.{participant_ids, paid-recipients, recipients-NonNegative}

abbrev SettlementTx : Type 0 → Type 0
SettlementTx A = LedgerTx MatchSettlementErrorCode A

-- The writes that follow the guarded decrement of the escrow.
abbrev payout :
    Platform
    → ℕ
    → ℤ
    → List Recipient
    → (List LedgerEntry → ℕ → LedgerTransaction)
    → ℕ
    → SettlementTx ℕ
payout g e total rs row count = do
  throw_if (not (count == 1)) (coded match_settlement_escrow_mismatch)
  escrow_after ← balance_of e
  throw_if (is_empty rs) (coded match_settlement_result_invalid)
  credits ← credit_recipients rs
  transaction ← create_transaction g (row (entry e debit total escrow_after ∷ credits))
  pure transaction.id

nonempty : (rs : List Recipient) → is_empty rs ≡ false → 0 < length rs
nonempty [] h = ground arith
nonempty (r ∷ rs) h = omega arith

module _ (g : Platform) (s : Ledger) (u : LedgerAccount) (total : ℤ) (rs : List Recipient)
    (row : List LedgerEntry → ℕ → LedgerTransaction) where
  abbrev taken : Ledger
  taken = write_balance u.id (less total u) s

  abbrev taken_pending : Pending
  taken_pending = shift settled u.id (less total u -ℤ u.current_balance)

  settlement_balanced :
      (es : List LedgerEntry) (l : Ledger) (v : ℤ)
      → pos 1 ≤ℤ total
      → is_empty rs ≡ false
      → paid rs ≡ total
      → Credited taken_pending taken rs es l
      → assert_balanced (entry u.id debit total v ∷ es) ≡ ok tt
  unfolding assert_balanced side_total entry
  settlement_balanced es l v positive some_paid whole k =
      rw (k.credits, k.debits, k.count, whole) (ground (arith, +ℤ_parts total (pos 0), nonempty rs))

  settlement_settles :
      (es : List LedgerEntry) (v : ℤ) (x : ℕ)
      → (taken_pending x +ℤ entries_balance x es)
          -ℤ entries_balance x (entry u.id debit total v ∷ es)
        ≡ settled x
  unfolding entries_balance entry
  settlement_settles es v x = grind int_laws

  absent-settlement :
      (es : List LedgerEntry) (l : Ledger) (v : ℤ) (x : ℕ)
      → account_by_id u.id s ≡ some u
      → Credited taken_pending taken rs es l
      → account_by_id x l ≡ none
      → entries_balance x (entry u.id debit total v ∷ es) ≡ pos 0
  unfolding entries_balance entry
  absent-settlement es l v x at_u k gone =
      let (gone1, nothing) = k.absent x gone in
      let gone0 = account_by_id-write_none u.id x (less total u) s gone1 in
      rw (absent_elsewhere u x s gone0 at_u, nothing) (omega int_laws)

  -- After the escrow's decrement, the rest of the transaction commits sound books.
  payout-IsSound :
      pos 1 ≤ℤ total
      → All NonNegative rs
      → (is_empty rs ≡ false → paid rs ≡ total)
      → account_by_id u.id s ≡ some u
      → total ≤ℤ u.current_balance
      → ((es : List LedgerEntry) (id : ℕ) → (row es id).entries ≡ number_from 1 es)
      → IsSound s
      → Ensures (λ _ l. IsSound l) (payout g u.id total rs row 1 taken)
  payout-IsSound positive nonneg whole at_u held same h = Ensures-throw_if _ _ _ _ λ _.
      rw
        (balance_of-ok {C = MatchSettlementErrorCode} u.id taken (with_balance (less total u) u)
          (ground (arith, account_by_id-write u.id u.id (less total u) s, at_u)))
        (Ensures-ok _ _ _ (
          Ensures-throw_if _ _ _ _ λ some_paid.
            Ensures-after
              (credit_recipients-Credited rs taken_pending taken nonneg (
                write_balance-BooksUpTo u.id (less total u) s settled u at_u
                  (λ _. omega (int_laws, held)) h))
              λ es l k. created es l some_paid k))
    where
      created :
          (es : List LedgerEntry) (l : Ledger)
          → is_empty rs ≡ false
          → Credited taken_pending taken rs es l
          → Ensures
              (λ _ l. IsSound l)
              (after
                (create_transaction {C = MatchSettlementErrorCode} g
                  (row (entry u.id debit total (less total u) ∷ es))
                  l)
                (λ t. pure t.id))
      created es l some_paid k =
          let all_entries = entry u.id debit total (less total u) ∷ es in
          Ensures-after
            (create_transaction-Booked g (row all_entries) _ (number_from 1 all_entries) l
              (same all_entries)
              (assert_balanced-number 1 all_entries
                (settlement_balanced es l (less total u) positive some_paid (whole some_paid) k))
              (λ x gone.
                entries_balance-number x 1 all_entries
                ∙ absent-settlement es l (less total u) x at_u k gone)
              k.books)
            λ t l' b. committed (
              BooksUpTo-pending _ settled l'
                (λ x.
                  rw (entries_balance-number x 1 all_entries)
                    (settlement_settles es (less total u) x))
                b.0)

-- What the unique key on (match, participant), and the CHECK on the amounts, give of the reservations.
pub record ArePayable (rs : List SettlementReservation) : Type 0 where
  pub apart : distinct (participant_ids rs) ≡ true
  pub amounts : All (λ r. pos 0 ≤ℤ r.amount) rs
  pub total : pos 1 ≤ℤ total_amount rs

abbrev settlement_row : PostSettlementInput → List LedgerEntry → ℕ → LedgerTransaction
settlement_row input es =
    finance_row (settlement_transaction_type input.type) match_settlement_reference input.match_id
      (codes "Non-monetary match settlement") input.idempotency_key input.fingerprint
      input.actor_user_id input.now es

settle_from :
    (g : Platform) (input : PostSettlementInput) (e : ℕ) (l : Ledger)
    → ArePayable input.reservations
    → IsSound l
    → Ensures
        (λ _ s. IsSound s)
        (after
          (update_balance_if {C = MatchSettlementErrorCode} e
            (escrow_of (total_amount input.reservations))
            (less (total_amount input.reservations))
            l)
          (payout g e
            (total_amount input.reservations)
            (recipients input.type input.winner_participant_id
              (total_amount input.reservations)
              input.reservations)
            (settlement_row input)))
unfolding escrow_of finance_row
settle_from g input e l pay h =
    let total = total_amount input.reservations in
    elim (Option-cases (account_by_id e l)) [
      | inl missing ↦
          rw
            (update_balance_if-missing {C = MatchSettlementErrorCode} e (escrow_of total)
              (less total) l missing)
            (Ensures-ok _ _ _ (Ensures-throw_if _ _ _ _ λ k. absurd (ground arith)))
      | inr (u, found) ↦
          let at : u.id ≡ e = account_by_id-id e l u found in
          Ensures-Guarded-after _
            (update_balance_if-Guarded {C = MatchSettlementErrorCode} e (escrow_of total)
              (less total) l u found)
            (elim (Bool-cases (escrow_of total u)) [
              | inl passes ↦
                  rw (passes, ← at)
                    (Ensures-ok _ _ _ (
                      payout-IsSound g l u total _ (settlement_row input) pay.total
                        (recipients-NonNegative input.type total input.winner_participant_id
                          input.reservations (omega (arith, pay.total)) pay.amounts)
                        (paid-recipients input.type total input.winner_participant_id
                          input.reservations pay.apart refl)
                        (rw (← at) at found) (ground arith) (λ es id. refl) h))
              | inr fails ↦
                  rw fails (Ensures-ok _ _ _ (Ensures-throw_if _ _ _ _ λ k. absurd (ground arith)))
            ])
    ]

-- From sound books, `postSettlement` for reservations of distinct participants, with amounts of at
-- least 0 and a positive total, commits sound books.
pub post_settlement-IsSound :
    (g : Platform) (input : PostSettlementInput) (l : Ledger)
    → ArePayable input.reservations
    → IsSound l
    → Ensures (λ _ s. IsSound s) (post_settlement g input l)
unfolding post_settlement
post_settlement-IsSound g input l pay h =
    Ensures-or_throw _ _ l _ λ e _. Ensures-throw_if _ _ l _ λ _. settle_from g input e l pay h
