-- ===== src/Backing/History.antt =====
-- The histories of the match finance tables: committed calls of the services of packages/match-finance
-- and postings of the wallet, from empty tables on. The other packages write the matches.
-- The other calls of the wallet, `ensureWallet`, `reverse` and `reconcile`, are no steps.
use arena_core.Prelude.{◌≡◌, refl, ℕ, List, [], ◌∷◌}
use arena_core.Prelude.Int.{◌+ℤ◌, int_laws}
use arena_core.Prelude.Outcome.{of_commit, ok}
use arena_core.Ledger.{Platform, Ledger, account_by_id, account_by_key}
use arena_core.Wallet.Repository.{PostLedgerInput, PostedTransaction}
use arena_core.Wallet.Posting.{post}
use arena_core.Finance.Types.{SettlementRecord}
use arena_core.Finance.Adapter.{get_escrow_balance}
use arena_core.Finance.Reservations.{ReservationView}
use arena_core.Finance.Store.{FinanceStore, MatchRow}
use arena_core.Finance.Entries.{ReserveEntryInput, reserve_entry, release_entries}
use arena_core.Finance.Refunds.{AdminRefundInput, refund_match, release_by_admin}
use arena_core.Finance.Settlements.{SettleInput, settle}
use arena_core.Books.History.{empty_ledger, registered-IsSound, empty_ledger-IsSound}
use arena_core.Books.Posting.{post-IsSound}
use arena_core.Books.Invariant.{IsSound}
use arena_core.Backing.Escrows.{Moves-same_accounts, nothing}
use arena_core.Backing.Held.{held}
use arena_core.Backing.Postings.{Quiet, post-Quiet}
use arena_core.Backing.Invariant.{IsBacked, IsBackedUpTo-change, moved-IsBackedUpTo}
use arena_core.Backing.Entries.{reserve_entry-IsBacked}
use arena_core.Backing.Releases.{release_entries-IsBacked, release_by_admin-IsBacked}
use arena_core.Backing.Refunds.{refund_match-IsBacked}
use arena_core.Backing.Settlements.{settle-Replayed}

pub Quiet-IsBacked :
    (s : FinanceStore) (l : Ledger)
    → IsBacked s
    → IsSound l
    → Quiet s.ledger l
    → IsBacked (record s { ledger = l })
Quiet-IsBacked s l h sound quiet =
    IsBackedUpTo-change _ nothing _ (λ m. omega int_laws)
      (moved-IsBackedUpTo nothing nothing s l h sound quiet)

abbrev pub empty_store : FinanceStore
empty_store = record { ledger = empty_ledger; matches = []; reservations = []; settlements = [] }

-- A committed call, from one state of the tables to the next.
pub data FinanceStep (g : Platform) : FinanceStore → FinanceStore → Type 0 where
  user_registered :
      {s : FinanceStore} (user : ℕ)
      → FinanceStep g s (record s { ledger = record s.ledger { users = user ∷ s.ledger.users } })
  matches_changed :
      {s : FinanceStore} (matches : List MatchRow)
      → FinanceStep g s (record s { matches = matches })
  points_posted :
      {s : FinanceStore} {l : Ledger} {r : PostedTransaction} (input : PostLedgerInput)
      → post g input s.ledger ≡ ok (r, l)
      → FinanceStep g s (record s { ledger = l })
  entry_reserved :
      {s s' : FinanceStore} {r : ReservationView} (id now : ℕ) (input : ReserveEntryInput)
      → reserve_entry g id now input s ≡ ok (r, s')
      → FinanceStep g s s'
  entries_released :
      {s s' : FinanceStore} {r : Unit {0}} (now match_id : ℕ)
      → release_entries now match_id s ≡ ok (r, s')
      → FinanceStep g s s'
  released_by_admin :
      {s s' : FinanceStore} {r : List ReservationView} (now match_id : ℕ)
      → release_by_admin now match_id s ≡ ok (r, s')
      → FinanceStep g s s'
  match_refunded :
      {s s' : FinanceStore} {r : List ReservationView} (now : ℕ) (input : AdminRefundInput)
      → refund_match g now input s ≡ ok (r, s')
      → FinanceStep g s s'
  match_settled :
      {s s' : FinanceStore} {r : SettlementRecord} (id now : ℕ) (input : SettleInput)
      → settle g id now input s ≡ ok (r, s')
      → FinanceStep g s s'

pub data FinanceReached (g : Platform) : FinanceStore → Type 0 where
  tables_created : FinanceReached g empty_store
  later : {s s' : FinanceStore} → FinanceReached g s → FinanceStep g s s' → FinanceReached g s'

empty-IsBacked : IsBacked empty_store
unfolding account_by_id account_by_key get_escrow_balance held ◌+ℤ◌
empty-IsBacked = record {
  sound = empty_ledger-IsSound;
  indexed = record { unique = refl; keyed = λ key id a e. cc };
  unique = refl;
  checks = refl;
  linked = tt;
  backed = λ m. refl;
}

FinanceStep-IsBacked :
    {g : Platform} {s s' : FinanceStore} → FinanceStep g s s' → IsBacked s → IsBacked s'
FinanceStep-IsBacked {s = s} (user_registered user) h =
    Quiet-IsBacked s _ h (registered-IsSound user s.ledger h.sound)
      (Moves-same_accounts s.ledger _ refl h.indexed)
FinanceStep-IsBacked {s = s} (matches_changed matches) h = record {
  sound = h.sound;
  indexed = h.indexed;
  unique = h.unique;
  checks = h.checks;
  linked = h.linked;
  backed = h.backed;
}
FinanceStep-IsBacked {g = g} {s = s} (points_posted {l = l} input e) h =
    Quiet-IsBacked s l h (of_commit (post-IsSound g input s.ledger h.sound) e)
      (of_commit (post-Quiet g input s.ledger h.sound h.indexed) e)
FinanceStep-IsBacked {g = g} {s = s} (entry_reserved id now input e) h =
    of_commit (reserve_entry-IsBacked g id now input s h) e
FinanceStep-IsBacked {g = g} {s = s} (entries_released now match_id e) h =
    of_commit (release_entries-IsBacked now match_id s h) e
FinanceStep-IsBacked {g = g} {s = s} (released_by_admin now match_id e) h =
    of_commit (release_by_admin-IsBacked now match_id s h) e
FinanceStep-IsBacked {g = g} {s = s} (match_refunded now input e) h =
    of_commit (refund_match-IsBacked g now input s h) e
FinanceStep-IsBacked {g = g} {s = s} (match_settled id now input e) h =
    rw (of_commit (settle-Replayed g id now input s h) e).0 h

-- In every state that these steps lead to from empty tables, the books are sound and the escrow
-- account of each match holds exactly what the match's reserved and released reservations add up to;
-- identifiers of reservations are unique, the CHECK constraints hold of each, and each that holds
-- points tells its user's account and the escrow account of its match.
pub FinanceReached-IsBacked : {g : Platform} {s : FinanceStore} → FinanceReached g s → IsBacked s
FinanceReached-IsBacked tables_created = empty-IsBacked
FinanceReached-IsBacked (later before step) =
    FinanceStep-IsBacked step (FinanceReached-IsBacked before)
