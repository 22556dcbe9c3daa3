-- ===== src/Books/History.antt =====
-- The histories of the ledger: every committed operation of the wallet repository
-- (packages/wallet/src/infrastructure/prisma-wallet-repository.ts) and of the match finance adapters
-- (packages/match-finance/src/infrastructure), from empty tables on. Transactions are serializable,
-- so a history is a sequence of them.
use arena_core.Prelude.{Option, ℕ, ◌≡◌, refl, none, [], ◌∷◌, is_some, Bool-cases, inl, inr}
use arena_core.Prelude.Int.{pos, ◌≤ℤ◌}
use arena_core.Prelude.Outcome.{
  ok, Ensures, committed, Ensures-after, Ensures-ok, Ensures-or_throw, of_commit,
}
use arena_core.Ledger.{
  Ledger, Platform, wallet_of_user, account_by_id, create_audit_event, WalletAuditEvent,
  reconciliation_checked, manual_reconciliation,
}
use arena_core.Wallet.Repository.{
  WalletRecord, PostedTransaction, PostLedgerInput, ReverseLedgerInput, WalletReconciliationResult,
  ensure_wallet,
}
use arena_core.Wallet.Posting.{post, reverse, reconcile, derived_balance}
use arena_core.Books.Invariant.{IsSound, settled}
use arena_core.Books.Tables.{BooksUpTo-other_tables}
use arena_core.Books.Steps.{Ensures-rethrown, ensure_accounts-IsSound}
use arena_core.Finance.Adapter.{
  ReserveLedgerInput, RefundLedgerInput, ReservationPosting, RefundableRow, PostSettlementInput,
  reserve, refund, post_settlement,
}
use arena_core.Books.Escrow.{HasAccounts, reserve-IsSound, refund-IsSound}
use arena_core.Books.Distribution.{ArePayable, post_settlement-IsSound}
use arena_core.Books.Posting.{post-IsSound}
use arena_core.Books.Reversal.{reverse-IsSound}

-- The tables that the migrations create.
abbrev pub empty_ledger : Ledger
empty_ledger = record {
  users = [];
  wallets = [];
  accounts = [];
  transactions = [];
  audit_events = [];
}

-- A committed operation, from one state of the tables to the next.
pub data Step (g : Platform) : Ledger → Ledger → Type 0 where
  registered : {l : Ledger} (user : ℕ) → Step g l (record l { users = user ∷ l.users })
  ensured :
      {l s : Ledger} {r : WalletRecord} (user now : ℕ)
      → ensure_wallet g user now l ≡ ok (r, s)
      → Step g l s
  posting :
      {l s : Ledger} {r : PostedTransaction} (input : PostLedgerInput)
      → post g input l ≡ ok (r, s)
      → Step g l s
  reversing :
      {l s : Ledger} {r : PostedTransaction} (input : ReverseLedgerInput)
      → reverse g input l ≡ ok (r, s)
      → Step g l s
  reconciled :
      {l s : Ledger} {r : WalletReconciliationResult} (user actor : ℕ)
      → reconcile user actor l ≡ ok (r, s)
      → Step g l s
  -- The amount comes from a match's settings, which the policies of a match entry have checked.
  reserving :
      {l s : Ledger} {r : ReservationPosting} (input : ReserveLedgerInput)
      → pos 1 ≤ℤ input.amount
      → reserve g input l ≡ ok (r, s)
      → Step g l s
  refunding :
      {l s : Ledger} {r : ℕ} (row : Option RefundableRow) (input : RefundLedgerInput)
      → pos 1 ≤ℤ input.amount
      → HasAccounts row
      → refund g row input l ≡ ok (r, s)
      → Step g l s
  settling :
      {l s : Ledger} {r : ℕ} (input : PostSettlementInput)
      → ArePayable input.reservations
      → post_settlement g input l ≡ ok (r, s)
      → Step g l s

pub data Reached (g : Platform) : Ledger → Type 0 where
  created : Reached g empty_ledger
  later : {l s : Ledger} → Reached g l → Step g l s → Reached g s

ensure_wallet-IsSound :
    (g : Platform) (user now : ℕ) (l : Ledger)
    → IsSound l
    → Ensures (λ _ s. IsSound s) (ensure_wallet g user now l)
unfolding ensure_wallet create_audit_event
ensure_wallet-IsSound g user now l h = Ensures-rethrown (
    Ensures-ok _ l _ (
      Ensures-after (ensure_accounts-IsSound g user now l h) λ p s r.
        elim (Bool-cases (is_some (wallet_of_user user l))) [
          | inl known ↦ rw known (Ensures-ok _ s _ (committed r.0))
          | inr new ↦
              rw new
                (Ensures-ok _ _ _ (committed (BooksUpTo-other_tables settled s s.wallets _ r.0)))
        ]))

reconcile-IsSound :
    (user actor : ℕ) (l : Ledger) → IsSound l → Ensures (λ _ s. IsSound s) (reconcile user actor l)
unfolding reconcile create_audit_event
reconcile-IsSound user actor l h = Ensures-rethrown (
    Ensures-ok _ l _ (
      Ensures-or_throw _ _ l _ λ w _. Ensures-ok _ l _ (
        Ensures-or_throw _ _ l _ λ a _.
          Ensures-ok _ l _
            (Ensures-ok _ _ _ (committed (BooksUpTo-other_tables settled l l.wallets _ h))))))

pub registered-IsSound :
    (user : ℕ) (l : Ledger) → IsSound l → IsSound (record l { users = user ∷ l.users })
unfolding account_by_id
registered-IsSound user l h = record {
  unique = h.unique;
  balances = h.balances;
  solvent = h.solvent;
  owned = h.owned;
  known = h.known;
  proper = h.proper;
}

pub Step-IsSound : {g : Platform} {l s : Ledger} → Step g l s → IsSound l → IsSound s
Step-IsSound {l = l} (registered user) h = registered-IsSound user l h
Step-IsSound {g = g} {l = l} (ensured user now e) h =
    of_commit (ensure_wallet-IsSound g user now l h) e
Step-IsSound {g = g} {l = l} (posting input e) h = of_commit (post-IsSound g input l h) e
Step-IsSound {g = g} {l = l} (reversing input e) h = of_commit (reverse-IsSound g input l h) e
Step-IsSound {g = g} {l = l} (reconciled user actor e) h =
    of_commit (reconcile-IsSound user actor l h) e
Step-IsSound {g = g} {l = l} (reserving input p e) h = of_commit (reserve-IsSound g input l p h) e
Step-IsSound {g = g} {l = l} (refunding row input p a e) h =
    of_commit (refund-IsSound g row input l p a h) e
Step-IsSound {g = g} {l = l} (settling input p e) h =
    of_commit (post_settlement-IsSound g input l p h) e

pub empty_ledger-IsSound : IsSound empty_ledger
unfolding account_by_id derived_balance
empty_ledger-IsSound = record {
  unique = refl;
  balances = λ id a e. cc;
  solvent = λ id a e u. cc;
  owned = λ id a e. cc;
  known = λ id e. refl;
  proper = tt;
}

-- In every state that the operations lead to from empty tables, the books are sound: account
-- identifiers are unique, each balance is the sum of the account's entries, no user's balance is
-- negative, a user's account has no system key and any other has one, nothing is booked on a missing
-- account, and each transaction is balanced and names no account twice.
pub Reached-IsSound : {g : Platform} {l : Ledger} → Reached g l → IsSound l
Reached-IsSound created = empty_ledger-IsSound
Reached-IsSound (later before step) = Step-IsSound step (Reached-IsSound before)

-- The audit row of a consistent wallet.
abbrev pub consistent_event : ℕ → ℕ → WalletAuditEvent
consistent_event wallet_id actor = record {
  wallet_id = wallet_id;
  actor_user_id = actor;
  action = reconciliation_checked;
  reason_code = manual_reconciliation;
  transaction_id = none;
  note = none;
}
