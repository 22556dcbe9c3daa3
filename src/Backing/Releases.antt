-- ===== src/Backing/Releases.antt =====
-- The release of a match's reservations (packages/match-finance/src/application), and the invariant of the
-- match finance tables.
use arena_core.Prelude.{ℕ, ◌≡◌, refl, ap, true, arith}
use arena_core.Prelude.Int.{pos, ◌+ℤ◌}
use arena_core.Prelude.Outcome.{
  Ensures, committed, Ensures-after, Ensures-map, Ensures-ok, Ensures-reading,
}
use arena_core.Ledger.{Ledger}
use arena_core.Finance.Store.{FinanceStore, ReservationRow}
use arena_core.Finance.Repository.{list_match}
use arena_core.Finance.Writes.{is_reserved_of, released_row, release_match}
use arena_core.Finance.Entries.{release_entries}
use arena_core.Finance.Refunds.{release_by_admin}
use arena_core.Backing.Escrows.{nothing}
use arena_core.Backing.Held.{held-rewrite_same, IsLinked}
use arena_core.Backing.Invariant.{IsBacked, Ensures-put_rows, rewritten-IsBackedUpTo}
use arena_core.Backing.Entries.{Reads, map_rows-Reads, assert_match-Reads}

list_match-Reads : (match_id limit : ℕ) (s : FinanceStore) → Reads (list_match match_id limit s) s
unfolding list_match
list_match-Reads match_id limit s = Ensures-ok _ s _ (map_rows-Reads _ s)

released-IsLinked :
    (l : Ledger) (now match_id : ℕ) (r : ReservationRow)
    → is_reserved_of match_id r ≡ true
    → IsLinked l r
    → IsLinked l (released_row now r)
released-IsLinked l now match_id r hit link _ =
    let k = link (ground (arith, hit)) in
    record {
      user_id = k.user_id;
      escrow_id = k.escrow_id;
      tells_user = k.tells_user;
      tells_escrow = k.tells_escrow;
      rows = k.rows;
    }

-- `releaseMatch` keeps the invariant: what a reservation holds stays in the escrow.
pub release_match-IsBacked :
    (match_id now : ℕ) (s : FinanceStore)
    → IsBacked s
    → Ensures (λ _ s'. IsBacked s') (release_match match_id now s)
unfolding release_match
release_match-IsBacked match_id now s h = Ensures-ok _ s _ (
    Ensures-put_rows _ s _ λ checks. Ensures-map (list_match-Reads match_id 100 _) λ _ t same.
      rw same (
        rewritten-IsBackedUpTo nothing nothing (is_reserved_of match_id) (released_row now) s
          (λ r. refl) (λ r. released-IsLinked s.ledger now match_id r) checks
          (λ m.
            ap (λ z. z +ℤ pos 0)
              (held-rewrite_same (is_reserved_of match_id) (released_row now) m s.reservations
                (λ r hit. ground (arith, hit))))
          h))

pub release_entries-IsBacked :
    (now match_id : ℕ) (s : FinanceStore)
    → IsBacked s
    → Ensures (λ _ s'. IsBacked s') (release_entries now match_id s)
unfolding release_entries
release_entries-IsBacked now match_id s h =
    Ensures-reading _ (assert_match-Reads now match_id s)
      λ _. Ensures-after (release_match-IsBacked match_id now s h) λ _ s' k. committed k

pub release_by_admin-IsBacked :
    (now match_id : ℕ) (s : FinanceStore)
    → IsBacked s
    → Ensures (λ _ s'. IsBacked s') (release_by_admin now match_id s)
unfolding release_by_admin
release_by_admin-IsBacked now match_id s h =
    Ensures-after (release_match-IsBacked match_id now s h) λ _ s' k. committed k
