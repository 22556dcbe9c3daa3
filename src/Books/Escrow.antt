-- ===== src/Books/Escrow.antt =====
-- `reserve` and `refund` of the wallet ledger adapter
-- (packages/match-finance/src/infrastructure/wallet-ledger-adapter.ts) keep the invariant of the
-- books: each takes an amount from one account, if that holds it, and adds it to another.
use arena_core.Prelude.{
  ℕ, ◌≡◌, refl, Bool, true, false, not, Option, some, none, [], ◌∷◌, arith, ◌==◌, Bool-cases,
  Option-cases, inl, inr,
}
use arena_core.Prelude.Int.{ℤ, pos, ◌+ℤ◌, ◌≤ℤ◌, int_laws}
use arena_core.Prelude.Outcome.{
  ok, Ensures, committed, rolled_back, Ensures-after, Ensures-throw_if, Ensures-or_throw,
  Ensures-ok, after, throw_if, or_throw, pure, ◌>>=◌, ◌>>◌,
}
use arena_core.Ledger.{
  Ledger, LedgerAccount, LedgerTransaction, account_by_id, debit, credit, Platform, Failure,
  LedgerTx, account_checks, check_violation, write_balance, with_balance, create_transaction,
  update_balance_if, balance_of, increment_balance, has_wallet, has_key, match_escrow_key,
  match_escrow,
}
use arena_core.Wallet.Posting.{entry}
use arena_core.Wallet.Repository.{number_from}
use arena_core.Finance.Adapter.{
  ReserveLedgerInput, RefundLedgerInput, RefundableRow, finance_row, active_with, holds, less,
  reserve, refund,
}
use arena_core.Books.Invariant.{IsSound, account_by_id-write}
use arena_core.Books.Tables.{upsert_account-IsSound}
use arena_core.Books.Rows.{account_by_id-id, upsert_wallet-IsSound}
use arena_core.Books.Steps.{
  distinct_accounts, user_account-find, account_by_key-find, has_wallet_row, has_key_row,
  keyed_is_system,
}
use arena_core.Prelude.Guarded.{Guarded, passed, Guarded-throw_if, Ensures-Guarded-after}
use arena_core.Books.Movement.{
  Moving, two_entries, second_found, create_numbered-IsSound, balance_of-ok,
  update_balance_if-Guarded, update_balance_if-missing,
}

pub increment_balance-Guarded :
    {C : Type 0} (id : ℕ) (d : ℤ) (l : Ledger) (a : LedgerAccount)
    → account_by_id id l ≡ some a
    → Guarded
        (ok (a.current_balance +ℤ d, write_balance id (a.current_balance +ℤ d) l))
        (increment_balance {C = C} id d l)
unfolding increment_balance after or_throw
increment_balance-Guarded id d l a found = rw found (
    Guarded-throw_if (not (account_checks (with_balance (a.current_balance +ℤ d) a)))
      check_violation l _ passed)

pub increment_balance-missing :
    {C A : Type 0} (id : ℕ) (d : ℤ) (l : Ledger) (k : ℤ → LedgerTx C A) {Q : A → Ledger → Type 0}
    → account_by_id id l ≡ none
    → Ensures Q (after (increment_balance id d l) k)
unfolding increment_balance after or_throw
increment_balance-missing id d l k missing = rw missing rolled_back

-- The writes that follow the guarded decrement.
abbrev pub transfer_writes :
    {C A : Type 0}
    → Platform
    → ℕ
    → ℕ
    → ℤ
    → Failure C
    → (ℤ → ℤ → ℕ → LedgerTransaction)
    → (LedgerTransaction → A)
    → ℕ
    → LedgerTx C A
transfer_writes g from to amount error row result count = do
  throw_if (not (count == 1)) error
  from_after ← balance_of from
  to_after ← increment_balance to amount
  transaction ← create_transaction g (row from_after to_after)
  pure (result transaction)

module _ {C A : Type 0} (g : Platform) (s : Ledger) (u v : LedgerAccount) (amount : ℤ)
    (test : LedgerAccount → Bool) (error : Failure C) (row : ℤ → ℤ → ℕ → LedgerTransaction)
    (result : LedgerTransaction → A) where
  written_row :
      account_by_id u.id s ≡ some u
      → account_by_id u.id (write_balance u.id (less amount u) s)
        ≡ some (with_balance (less amount u) u)
  written_row at_u = ground (arith, account_by_id-write u.id u.id (less amount u) s, at_u)

  transfer_written :
      Moving s u v debit amount (less amount u) (v.current_balance +ℤ amount)
      → ((a b : ℤ) (id : ℕ)
          → (row a b id).entries ≡ number_from 1 (two_entries s u v debit amount a b))
      → Ensures
          (λ _ l. IsSound l)
          (transfer_writes g u.id v.id amount error row result 1
            (write_balance u.id (less amount u) s))
  transfer_written m same = Ensures-throw_if _ _ _ _ λ _.
      rw (balance_of-ok {C = C} u.id (write_balance u.id (less amount u) s) _ (written_row m.at_u))
        (Ensures-ok _ _ _ (
          Ensures-Guarded-after _
            (increment_balance-Guarded {C = C} v.id amount (write_balance u.id (less amount u) s) v
              (second_found s u v debit amount (less amount u) (v.current_balance +ℤ amount) m))
            (Ensures-ok _ _ _ (
              Ensures-after
                (create_numbered-IsSound s u v debit amount (less amount u)
                  (v.current_balance +ℤ amount) g _ (same _ _) m)
                λ t l k. committed k))))

  pub transfer-IsSound :
      (test u ≡ true → Moving s u v debit amount (less amount u) (v.current_balance +ℤ amount))
      → account_by_id u.id s ≡ some u
      → ((a b : ℤ) (id : ℕ)
          → (row a b id).entries ≡ number_from 1 (two_entries s u v debit amount a b))
      → Ensures
          (λ _ l. IsSound l)
          (after
            (update_balance_if {C = C} u.id test (less amount) s)
            (transfer_writes g u.id v.id amount error row result))
  transfer-IsSound m at_u same =
      Ensures-Guarded-after _ (update_balance_if-Guarded {C = C} u.id test (less amount) s u at_u)
        (elim (Bool-cases (test u)) [
          | inl passes ↦ rw passes (Ensures-ok _ _ _ (transfer_written (m passes) same))
          | inr fails ↦
              rw fails (Ensures-ok _ _ _ (Ensures-throw_if _ _ _ _ λ e. absurd (ground arith)))
        ])

module _ (s : Ledger) (u v : LedgerAccount) (amount : ℤ) where
  -- Taking `amount` from `u`, which holds it, for `v`.
  pub moving_amount :
      IsSound s
      → account_by_id u.id s ≡ some u
      → account_by_id v.id s ≡ some v
      → (u.id == v.id) ≡ false
      → pos 1 ≤ℤ amount
      → amount ≤ℤ u.current_balance
      → Moving s u v debit amount (less amount u) (v.current_balance +ℤ amount)
  moving_amount h at_u at_v apart positive held = record {
    sound = h;
    at_u = at_u;
    at_v = at_v;
    apart = apart;
    positive = positive;
    u_moves = grind int_laws;
    v_moves = refl;
    u_solvent = λ _. omega (int_laws, held);
    v_solvent = λ e. omega (int_laws, h.solvent v.id v at_v e, positive);
  }

module _ {C A : Type 0} (g : Platform) (s : Ledger) (from to : ℕ) (amount : ℤ) (error : Failure C)
    (row : ℤ → ℤ → ℕ → LedgerTransaction) (result : LedgerTransaction → A) where
  -- Without the second account, nothing is written.
  transfer_to_nobody :
      {Q : A → Ledger → Type 0} (u : LedgerAccount)
      → account_by_id from s ≡ some u
      → account_by_id to s ≡ none
      → Ensures Q (
          after
            (update_balance_if {C = C} from (holds amount) (less amount) s)
            (transfer_writes g from to amount error row result))
  transfer_to_nobody u at_from missing =
      Ensures-Guarded-after _
        (update_balance_if-Guarded {C = C} from (holds amount) (less amount) s u at_from)
        (elim (Bool-cases (holds amount u)) [
          | inl passes ↦ rw passes (
              Ensures-ok _ _ _ (
                Ensures-throw_if _ _ _ _ λ _.
                  rw
                    (balance_of-ok {C = C} from (write_balance from (less amount u) s)
                      (with_balance (less amount u) u)
                      (ground (arith, account_by_id-write from from (less amount u) s, at_from)))
                    (Ensures-ok _ _ _ (
                      increment_balance-missing to amount _ _
                        (ground (arith, account_by_id-write from to (less amount u) s, missing))))))
          | inr fails ↦
              rw fails (Ensures-ok _ _ _ (Ensures-throw_if _ _ _ _ λ e. absurd (ground arith)))
        ])

  transfer_from_nobody :
      {Q : A → Ledger → Type 0}
      → account_by_id from s ≡ none
      → Ensures Q (
          after
            (update_balance_if {C = C} from (holds amount) (less amount) s)
            (transfer_writes g from to amount error row result))
  transfer_from_nobody missing =
      rw (update_balance_if-missing {C = C} from (holds amount) (less amount) s missing)
        (Ensures-ok _ _ _ (Ensures-throw_if _ _ _ _ λ e. absurd (ground arith)))

  transfer_between :
      (u v : LedgerAccount)
      → IsSound s
      → pos 1 ≤ℤ amount
      → (from == to) ≡ false
      → account_by_id from s ≡ some u
      → account_by_id to s ≡ some v
      → ((a b : ℤ) (id : ℕ)
          → (row a b id).entries
            ≡ number_from 1 (entry from debit amount a ∷ entry to credit amount b ∷ []))
      → Ensures
          (λ _ l. IsSound l)
          (after
            (update_balance_if {C = C} from (holds amount) (less amount) s)
            (transfer_writes g from to amount error row result))
  unfolding holds
  transfer_between u v h positive apart at_from at_to same =
      let eu = account_by_id-id from s u at_from in
      let ev = account_by_id-id to s v at_to in
      rw (← eu, ← ev)
        (transfer-IsSound g s u v amount (holds amount) error row result
          (λ passes.
            moving_amount s u v amount h (rw (← eu) at at_from) (rw (← ev) at at_to)
              (rw (← eu, ← ev) at apart) positive (ground arith))
          (rw (← eu) at at_from) (rw (← eu, ← ev) at same))

  pub transfer_ids-IsSound :
      IsSound s
      → pos 1 ≤ℤ amount
      → (from == to) ≡ false
      → ((a b : ℤ) (id : ℕ)
          → (row a b id).entries
            ≡ number_from 1 (entry from debit amount a ∷ entry to credit amount b ∷ []))
      → Ensures
          (λ _ l. IsSound l)
          (after
            (update_balance_if {C = C} from (holds amount) (less amount) s)
            (transfer_writes g from to amount error row result))
  transfer_ids-IsSound h positive apart same = elim (Option-cases (account_by_id from s)) [
    | inl no_from ↦ transfer_from_nobody no_from
    | inr (u, at_from) ↦ elim (Option-cases (account_by_id to s)) [
      | inl no_to ↦ transfer_to_nobody u at_from no_to
      | inr (v, at_to) ↦ transfer_between u v h positive apart at_from at_to same
    ]
  ]

-- From sound books, `reserve` of a positive amount commits sound books.
pub reserve-IsSound :
    (g : Platform) (input : ReserveLedgerInput) (l : Ledger)
    → pos 1 ≤ℤ input.amount
    → IsSound l
    → Ensures (λ _ s. IsSound s) (reserve g input l)
unfolding reserve finance_row active_with
reserve-IsSound g input l positive h =
    Ensures-after (upsert_wallet-IsSound g input.user_id input.now l h) λ w s k.
      Ensures-throw_if _ _ s _ λ _.
        Ensures-after
          (upsert_account-IsSound (has_wallet w.id) g _ _ s (user_account-find w.id)
            (has_wallet_row w.id) k)
          λ u s1 p.
            Ensures-after
              (upsert_account-IsSound (has_key (match_escrow_key input.match_id)) g _ _ s1
                (account_by_key-find (match_escrow_key input.match_id))
                (λ n.
                  has_key_row match_escrow (match_escrow_key input.match_id) n refl (ground arith))
                p.0)
              λ v s2 q. Ensures-throw_if _ _ s2 _ λ _.
                transfer-IsSound g s2 u v input.amount (active_with input.amount) _ _ _
                  (λ passes.
                    moving_amount s2 u v input.amount q.0 (q.3 u.id u p.1) q.1
                      (distinct_accounts u v s2 (q.3 u.id u p.1) q.1 (ground (arith, p.2))
                        (keyed_is_system (match_escrow_key input.match_id) v s2 q.0 q.1 q.2))
                      positive (ground arith))
                  (q.3 u.id u p.1) (λ a b id. refl)

-- The reservation's escrow and its user's account are two accounts.
abbrev pub HasAccounts : Option RefundableRow → Type 0
HasAccounts row =
    (r : RefundableRow) (a e : ℕ)
    → row ≡ some r
    → r.ledger_account_id ≡ some a
    → r.escrow_account_id ≡ some e
    → (e == a) ≡ false

-- From sound books, `refund` of a positive amount to an account other than the escrow commits sound
-- books.
pub refund-IsSound :
    (g : Platform) (row : Option RefundableRow) (input : RefundLedgerInput) (l : Ledger)
    → pos 1 ≤ℤ input.amount
    → HasAccounts row
    → IsSound l
    → Ensures (λ _ s. IsSound s) (refund g row input l)
unfolding refund finance_row holds
refund-IsSound g row input l positive apart h = Ensures-or_throw _ _ l _ λ r er.
    Ensures-or_throw _ _ l _ λ a ea. Ensures-or_throw _ _ l _ λ e ee. Ensures-throw_if _ _ l _ λ _.
      transfer_ids-IsSound g l e a input.amount _ _ _ h positive (apart r a e er ea ee)
        (λ x y id. refl)
