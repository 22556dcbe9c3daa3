-- ===== src/Backing/Reserving.antt =====
-- `reserve` and `refund` of the wallet ledger adapter
-- (packages/match-finance/src/infrastructure/wallet-ledger-adapter.ts), and the escrow of their match.
use arena_core.Prelude.{ℕ, ◌≡◌, refl, ap, ◌∙◌, true, false, Option, some, none, arith, ◌==◌}
use arena_core.Prelude.Int.{pos, ◌-ℤ◌, int_laws}
use arena_core.Prelude.Outcome.{
  Ensures, Ensures-after, Ensures-throw_if, Ensures-both, Ensures-map, after, or_throw,
}
use arena_core.Ledger.{
  Ledger, LedgerAccount, SystemKey, key_eq, account_by_id, Platform, match_escrow, match_escrow_key,
  has_key, has_wallet, is_user_available,
}
use arena_core.Finance.Adapter.{
  ReserveLedgerInput, ReservationPosting, finance_row, active_with, holds, reserve,
  RefundLedgerInput, RefundableRow, refund,
}
use arena_core.Books.Invariant.{IsSound}
use arena_core.Books.Tables.{upsert_account-IsSound}
use arena_core.Books.Rows.{account_by_id-id, upsert_wallet-IsSound}
use arena_core.Books.Steps.{
  distinct_accounts, user_account-find, account_by_key-find, has_wallet_row, has_key_row,
  keyed_is_system,
}
use arena_core.Backing.Escrows.{IsIndexed, Kept, Moves, Moves-change, Moves-both}
use arena_core.Backing.Accounts.{user_account-Moves, system_account-Moves, upsert_wallet-Moves}
use arena_core.Backing.Transfers.{only, transfer-Moves, transferred-in, transferred-out}

-- The accounts of a reservation: its user's, and the escrow of its match.
pub record HasAccountsOf (match_id user_account escrow : ℕ) (l : Ledger) : Type 0 where
  pub user : LedgerAccount
  pub escrow_row : LedgerAccount
  pub at_user : account_by_id user_account l ≡ some user
  pub is_user : is_user_available user.type ≡ true
  pub at_escrow : account_by_id escrow l ≡ some escrow_row
  pub is_escrow : has_key (match_escrow_key match_id) escrow_row ≡ true

pub HasAccountsOf-Kept :
    (m a e : ℕ) (l l' : Ledger) → Kept l l' → HasAccountsOf m a e l → HasAccountsOf m a e l'
HasAccountsOf-Kept m a e l l' kept h =
    let (u, at_u, (_, t, _)) = kept a h.user h.at_user in
    let (v, at_v, (_, _, y)) = kept e h.escrow_row h.at_escrow in
    record {
      user = u;
      escrow_row = v;
      at_user = at_u;
      is_user = ap is_user_available t ∙ h.is_user;
      at_escrow = at_v;
      is_escrow =
          ap
            (λ (k : Option SystemKey). elim k [
              | none ↦ false
              | some x ↦ key_eq x (match_escrow_key m)
            ])
            y
          ∙ h.is_escrow;
    }

-- What `reserve` does to the escrow accounts, and the accounts that it tells.
abbrev pub Reserved : ReserveLedgerInput → Ledger → ReservationPosting → Ledger → Type 0
Reserved input l p s =
    Moves (only input.match_id input.amount) l s
    × HasAccountsOf input.match_id p.user_account_id p.escrow_account_id s

pub reserve-Reserved :
    (g : Platform) (input : ReserveLedgerInput) (l : Ledger)
    → IsSound l
    → IsIndexed l
    → Ensures (Reserved input l) (reserve g input l)
unfolding reserve finance_row active_with
reserve-Reserved g input l h k =
    Ensures-after
      (Ensures-both _ (upsert_wallet-IsSound g input.user_id input.now l h)
        (upsert_wallet-Moves g input.user_id input.now l k))
      λ w s (h1, k1). Ensures-throw_if _ _ s _ λ _.
        Ensures-after
          (Ensures-both _
            (upsert_account-IsSound (has_wallet w.id) g _ _ s (user_account-find w.id)
              (has_wallet_row w.id) h1)
            (user_account-Moves g w.id s k1.indexed))
          λ u s1 (p, k2).
            Ensures-after
              (Ensures-both _
                (upsert_account-IsSound (has_key (match_escrow_key input.match_id)) g _ _ s1
                  (account_by_key-find (match_escrow_key input.match_id))
                  (λ n.
                    has_key_row match_escrow (match_escrow_key input.match_id) n refl
                      (ground arith))
                  p.0)
                (system_account-Moves g match_escrow (match_escrow_key input.match_id) s1
                  k2.indexed))
              λ v s2 (q, k3). Ensures-throw_if _ _ s2 _ λ _.
                let at_u = q.3 u.id u p.1 in
                let user : is_user_available u.type ≡ true = ground (arith, p.2) in
                let apart =
                  distinct_accounts u v s2 at_u q.1 user
                    (keyed_is_system (match_escrow_key input.match_id) v s2 q.0 q.1 q.2) in
                Ensures-map
                  (transfer-Moves g s2 u v input.amount (active_with input.amount) _ _ _ k3.indexed
                    at_u q.1 apart)
                  λ r s3 (moved, (t, e)). (
                    Moves-change _ (only input.match_id input.amount) l s3
                        (λ m.
                          rw (transferred-in s2 u v input.amount input.match_id m q.0 at_u user q.2)
                            (omega int_laws))
                        (Moves-both _ _ l s s3 k1
                          (Moves-both _ _ s s1 s3 k2 (Moves-both _ _ s1 s2 s3 k3 moved))),
                    rw e (
                        HasAccountsOf-Kept input.match_id u.id v.id s2 s3 moved.kept (record {
                          user = u;
                          escrow_row = v;
                          at_user = at_u;
                          is_user = user;
                          at_escrow = q.1;
                          is_escrow = q.2;
                        })),
                  )

pub escrow_apart :
    (m : ℕ) (u v : LedgerAccount) (l : Ledger)
    → IsSound l
    → account_by_id u.id l ≡ some u
    → account_by_id v.id l ≡ some v
    → is_user_available u.type ≡ true
    → has_key (match_escrow_key m) v ≡ true
    → (v.id == u.id) ≡ false
escrow_apart m u v l h at_u at_v user k =
    let apart =
      distinct_accounts u v l at_u at_v user (keyed_is_system (match_escrow_key m) v l h at_v k) in
    ground arith

-- What `refund` does to them: the reservation's accounts are those of its match and its user.
pub refund-Moves :
    (g : Platform) (row : RefundableRow) (input : RefundLedgerInput) (l : Ledger) (a e : ℕ)
    → IsSound l
    → IsIndexed l
    → row.ledger_account_id ≡ some a
    → row.escrow_account_id ≡ some e
    → HasAccountsOf input.match_id a e l
    → Ensures
        (λ _ s. Moves (only input.match_id (pos 0 -ℤ input.amount)) l s)
        (refund g (some row) input l)
unfolding refund finance_row holds after or_throw
refund-Moves g row input l a e h k ea ee accounts =
    rw (ea, ee)
      (Ensures-throw_if _ _ l _ λ _.
        let eid = account_by_id-id e l accounts.escrow_row accounts.at_escrow in
        let aid = account_by_id-id a l accounts.user accounts.at_user in
        let at_e = rw (← eid) at accounts.at_escrow in
        let at_a = rw (← aid) at accounts.at_user in
        let apart =
          escrow_apart input.match_id accounts.user accounts.escrow_row l h at_a at_e
            accounts.is_user accounts.is_escrow in
        rw (← eid, ← aid)
          (Ensures-map
            (transfer-Moves g l accounts.escrow_row accounts.user input.amount (holds input.amount)
              _ _ _ k at_e at_a apart)
            λ r s (moved, _).
              Moves-change _ (only input.match_id (pos 0 -ℤ input.amount)) l s
                (λ m.
                  transferred-out l accounts.escrow_row accounts.user input.amount input.match_id m
                    h at_a accounts.is_user accounts.is_escrow)
                moved))
