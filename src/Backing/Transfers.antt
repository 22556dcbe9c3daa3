-- ===== src/Backing/Transfers.antt =====
-- `reserve` and `refund` of the wallet ledger adapter
-- (packages/match-finance/src/infrastructure/wallet-ledger-adapter.ts) move one escrow's balance: that
-- of the match.
use arena_core.Prelude.{
  ℕ, ◌≡◌, refl, Bool, true, false, Option, some, none, arith, ◌==◌, if◌then◌else◌, Bool-cases, inl,
  inr,
}
use arena_core.Prelude.Int.{ℤ, pos, ◌+ℤ◌, ◌-ℤ◌, int_laws}
use arena_core.Prelude.Guarded.{Ensures-Guarded-after}
use arena_core.Prelude.Outcome.{
  Ensures, committed, Ensures-after, Ensures-throw_if, Ensures-ok, after,
}
use arena_core.Ledger.{
  Ledger, LedgerAccount, LedgerTransaction, SystemKey, arena_point_issuance, arena_point_adjustment,
  key_eq, account_by_id, Platform, Failure, match_escrow_key, has_key, is_user_available,
  write_balance, with_balance, update_balance_if,
}
use arena_core.Finance.Adapter.{less}
use arena_core.Books.Invariant.{IsSound, account_by_id-write}
use arena_core.Books.Movement.{balance_of-ok, update_balance_if-Guarded}
use arena_core.Books.Escrow.{transfer_writes, increment_balance-Guarded}
use arena_core.Backing.Escrows.{IsIndexed, Moves, Moves-change, Moves-both, write_balance-Moves}
use arena_core.Backing.Accounts.{create_transaction-Moves}

-- `amount` more for the match `id`.
abbrev pub only : ℕ → ℤ → ℕ → ℤ
only id amount m = if id == m then amount else pos 0

-- The amount that an account's escrow gets.
abbrev pub change_of : LedgerAccount → ℤ → ℕ → ℤ
change_of a amount m = if has_key (match_escrow_key m) a then amount else pos 0

module _ {C A : Type 0} (g : Platform) (s : Ledger) (u v : LedgerAccount) (amount : ℤ)
    (test : LedgerAccount → Bool) (error : Failure C) (row : ℤ → ℤ → ℕ → LedgerTransaction)
    (result : LedgerTransaction → A) (h : IsIndexed s) (at_u : account_by_id u.id s ≡ some u)
    (at_v : account_by_id v.id s ≡ some v) (apart : (u.id == v.id) ≡ false) where
  abbrev transferred : ℕ → ℤ
  transferred m = change_of u (pos 0 -ℤ amount) m +ℤ change_of v amount m

  abbrev Resulting : A → Type 0
  Resulting a = (t : LedgerTransaction) × (a ≡ result t)

  transfer_written-Moves :
      Ensures
        (λ a l. Moves transferred s l × Resulting a)
        (transfer_writes g u.id v.id amount error row result 1
          (write_balance u.id (less amount u) s))
  transfer_written-Moves =
      let taken = write_balance u.id (less amount u) s in
      let first = write_balance-Moves u.id (less amount u) s u h at_u in
      let found : account_by_id v.id taken ≡ some v =
        ground (arith, account_by_id-write u.id v.id (less amount u) s, at_v, apart) in
      let second =
        write_balance-Moves v.id (v.current_balance +ℤ amount) taken v first.indexed found in
      Ensures-throw_if _ _ _ _ λ _.
        rw
          (balance_of-ok {C = C} u.id taken (with_balance (less amount u) u)
            (ground (arith, account_by_id-write u.id u.id (less amount u) s, at_u)))
          (Ensures-ok _ _ _ (
            Ensures-Guarded-after _ (increment_balance-Guarded {C = C} v.id amount taken v found) (
              Ensures-ok _ _ _ (
                Ensures-after (create_transaction-Moves g _ _ second.indexed) λ t l k. committed (
                  Moves-change _ transferred s l (λ m. grind int_laws)
                      (Moves-both _ _ s taken l first (Moves-both _ _ taken _ l second k)),
                  (t, refl),
                )))))

  pub transfer-Moves :
      Ensures
        (λ a l. Moves transferred s l × Resulting a)
        (after
          (update_balance_if {C = C} u.id test (less amount) s)
          (transfer_writes g u.id v.id amount error row result))
  transfer-Moves =
      Ensures-Guarded-after _ (update_balance_if-Guarded {C = C} u.id test (less amount) s u at_u)
        (elim (Bool-cases (test u)) [
          | inl passes ↦ rw passes (Ensures-ok _ _ _ transfer_written-Moves)
          | inr fails ↦
              rw fails (Ensures-ok _ _ _ (Ensures-throw_if _ _ _ _ λ e. absurd (ground arith)))
        ])

-- A user's account has no key, and an escrow has that of its match.
pub unkeyed_of_user :
    (l : Ledger) (u : LedgerAccount) (key : SystemKey)
    → IsSound l
    → account_by_id u.id l ≡ some u
    → is_user_available u.type ≡ true
    → has_key key u ≡ false
unkeyed_of_user l u key h at_u user = ground (arith, h.owned u.id u at_u)

keyed_alike :
    (k : Option SystemKey) (id m : ℕ)
    → (elim k [ none ↦ false | some x ↦ key_eq x (match_escrow_key id) ]) ≡ true
    → (elim k [ none ↦ false | some x ↦ key_eq x (match_escrow_key m) ]) ≡ (id == m)
keyed_alike none id m h = cc
keyed_alike (some (match_escrow_key n)) id m h = ground arith
keyed_alike (some arena_point_issuance) id m h = cc
keyed_alike (some arena_point_adjustment) id m h = cc

escrow_key_of :
    (v : LedgerAccount) (id m : ℕ)
    → has_key (match_escrow_key id) v ≡ true
    → has_key (match_escrow_key m) v ≡ (id == m)
escrow_key_of v id m k = keyed_alike v.system_key id m k

pub transferred-in :
    (l : Ledger) (u v : LedgerAccount) (amount : ℤ) (id m : ℕ)
    → IsSound l
    → account_by_id u.id l ≡ some u
    → is_user_available u.type ≡ true
    → has_key (match_escrow_key id) v ≡ true
    → (change_of u (pos 0 -ℤ amount) m +ℤ change_of v amount m) ≡ only id amount m
transferred-in l u v amount id m h at_u user k =
    rw (unkeyed_of_user l u (match_escrow_key m) h at_u user, escrow_key_of v id m k)
      (elim (Bool-cases (id == m)) [
        | inl same ↦ rw same (omega int_laws)
        | inr other ↦ rw other (omega int_laws)
      ])

pub transferred-out :
    (l : Ledger) (u v : LedgerAccount) (amount : ℤ) (id m : ℕ)
    → IsSound l
    → account_by_id v.id l ≡ some v
    → is_user_available v.type ≡ true
    → has_key (match_escrow_key id) u ≡ true
    → (change_of u (pos 0 -ℤ amount) m +ℤ change_of v amount m) ≡ only id (pos 0 -ℤ amount) m
transferred-out l u v amount id m h at_v user k =
    rw (unkeyed_of_user l v (match_escrow_key m) h at_v user, escrow_key_of u id m k)
      (elim (Bool-cases (id == m)) [
        | inl same ↦ rw same (omega int_laws)
        | inr other ↦ rw other (omega int_laws)
      ])
