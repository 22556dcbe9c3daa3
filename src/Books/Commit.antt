-- ===== src/Books/Commit.antt =====
-- `post` (packages/wallet/src/infrastructure/prisma-wallet-repository.ts) commits when its
-- conditions hold, and refuses a debit that the balance does not cover.
use arena_core.Prelude.{
  ◌≡◌, refl, ◌∙◌, true, false, some, none, arith, ◌==◌, if◌then◌else◌, Bool-cases, inl, inr, find,
}
use arena_core.Prelude.Int.{ℤ, pos, ◌+ℤ◌, ◌-ℤ◌, ◌≤ℤ◌, -ℤ_parts, ltb_ℤ, leb_ℤ, int_laws}
use arena_core.Prelude.Outcome.{ok, throw, after, throw_if, or_throw}
use arena_core.Ledger.{
  Ledger, LedgerAccount, WalletRow, SystemKey, arena_point_issuance, arena_point_adjustment,
  LedgerTransactionType, LedgerDirection, debit, is_active, is_suspended, is_closed, is_issuance,
  opposite, Platform, coded, wallet_of_user, user_account, account_by_key, account_by_id,
  transaction_by_key, user_account_row, has_wallet, write_balance,
}
use arena_core.Wallet.Policies.{WalletErrorCode, wallet_insufficient_balance, next_balance}
use arena_core.Wallet.Repository.{
  PostedTransaction, PostLedgerInput, ensure_accounts, system_account, rethrown, checked,
}
use arena_core.Wallet.Posting.{post, post_new, covers}
use arena_core.Books.Invariant.{IsSound}
use arena_core.Books.Rows.{
  upsert_account-ok, upsert_wallet-ok, user_account-at_id, account_by_key-at_id, found_has_key,
  found_has_wallet,
}
use arena_core.Books.Steps.{moved, distinct_accounts, keyed_is_system}
use arena_core.Books.Movement.{Moving, balance_of-ok, update_balance_if-ok}
use arena_core.Books.Posting.{post_writes}
use arena_core.Books.Storable.{IsStorable, account_checks-with_balance}
use arena_core.Books.Success.{next_balance-ok, Posted, writes_commit}

abbrev pub system_key_of : LedgerTransactionType → SystemKey
system_key_of type = if is_issuance type then arena_point_issuance else arena_point_adjustment

-- The user is registered and has an active wallet with an account, the system account is there, and
-- the idempotency key is new.
pub record IsReady (input : PostLedgerInput) (w : WalletRow) (u v : LedgerAccount) (l : Ledger)
    : Type 0 where
  pub registered : find (λ x. x == input.user_id) l.users ≡ some input.user_id
  pub at_user : wallet_of_user input.user_id l ≡ some w
  pub at_id : find (λ (r : WalletRow). r.id == w.id) l.wallets ≡ some w
  pub writable : is_active w.status ≡ true
  pub account : user_account w.id l ≡ some u
  pub system : account_by_key (system_key_of input.type) l ≡ some v
  pub new : transaction_by_key input.idempotency_key l ≡ none

solvent_covers :
    (direction : LedgerDirection) (amount : ℤ) (u : LedgerAccount)
    → pos 0 ≤ℤ (u.current_balance +ℤ moved direction amount)
    → covers direction amount u ≡ true
unfolding covers
solvent_covers LedgerDirection.credit amount u solvent = refl
solvent_covers LedgerDirection.debit amount u solvent =
    let held : amount ≤ℤ u.current_balance = omega (int_laws, solvent) in ground arith

ensure_accounts-ok :
    (g : Platform) (input : PostLedgerInput) (w : WalletRow) (u v : LedgerAccount) (l : Ledger)
    → IsReady input w u v l
    → ensure_accounts g input.user_id input.now l ≡ ok ((w, u), l)
unfolding ensure_accounts after or_throw
ensure_accounts-ok g input w u v l r =
    rw
      (
        r.registered,
        upsert_wallet-ok {C = WalletErrorCode} g input.user_id input.now l w r.at_user,
        upsert_account-ok {C = WalletErrorCode} g (user_account w.id) (user_account_row w.id) l u
            r.account,
      )
      refl

system_account-ok :
    (g : Platform) (input : PostLedgerInput) (w : WalletRow) (u v : LedgerAccount) (l : Ledger)
    → IsReady input w u v l
    → system_account g (is_issuance input.type) l ≡ ok (v, l)
unfolding system_account
system_account-ok g input w u v l r = elim (Bool-cases (is_issuance input.type)) [
  | inl issues ↦
      let at : account_by_key arena_point_issuance l ≡ some v = rw issues at r.system in
      rw issues (upsert_account-ok g _ _ l v at)
  | inr adjusts ↦
      let at : account_by_key arena_point_adjustment l ≡ some v = rw adjusts at r.system in
      rw adjusts (upsert_account-ok g _ _ l v at)
]

module _ (g : Platform) (input : PostLedgerInput) (w : WalletRow) (u v : LedgerAccount) (l : Ledger)
    (ready : IsReady input w u v l) (sound : IsSound l) (positive : pos 1 ≤ℤ input.amount) where
  abbrev pub new_balance : ℤ
  new_balance = u.current_balance +ℤ moved input.direction input.amount

  abbrev pub new_system_balance : ℤ
  new_system_balance = v.current_balance +ℤ moved (opposite input.direction) input.amount

  at_u : account_by_id u.id l ≡ some u
  at_u = user_account-at_id w.id l u sound ready.account

  moving :
      pos 0 ≤ℤ new_balance
      → Moving l u v input.direction input.amount new_balance new_system_balance
  moving solvent =
      let at_v = account_by_key-at_id (system_key_of input.type) l v sound ready.system in
      let on_user : has_wallet w.id u ≡ true = found_has_wallet w.id l u ready.account in
      let on_system =
        keyed_is_system (system_key_of input.type) v l sound at_v
          (found_has_key (system_key_of input.type) l v ready.system) in
      record {
        sound = sound;
        at_u = at_u;
        at_v = at_v;
        apart = distinct_accounts u v l at_u at_v (ground arith) on_system;
        positive = positive;
        u_moves = refl;
        v_moves = refl;
        u_solvent = λ _. solvent;
        v_solvent = λ e. absurd (ground arith);
      }

  -- Up to its guarded update, `post` is this.
  post_is_writes :
      pos 0 ≤ℤ new_balance
      → IsStorable input u v new_balance new_system_balance l
      → post g input l
        ≡ rethrown (
            post_writes g input w u v new_balance new_system_balance 1
              (write_balance u.id new_balance l))
  unfolding post post_new after throw_if checked
  post_is_writes solvent storable =
      let active : is_suspended w.status ≡ false = ground (arith, ready.writable) in
      let open_wallet : is_closed w.status ≡ false = ground (arith, ready.writable) in
      let enough : covers input.direction input.amount u ≡ true =
        solvent_covers input.direction input.amount u solvent in
      rw
        (
          ready.new,
          ensure_accounts-ok g input w u v l ready,
          active,
          open_wallet,
          system_account-ok g input w u v l ready,
          balance_of-ok {C = WalletErrorCode} u.id l u at_u,
          next_balance-ok u.current_balance input.amount input.direction true positive
              (λ _. solvent),
          next_balance-ok v.current_balance input.amount (opposite input.direction) false positive
              (λ e. absurd (ground arith)),
          update_balance_if-ok {C = WalletErrorCode} u.id (covers input.direction input.amount)
              (λ _. new_balance) l u at_u
              (λ _.
                account_checks-with_balance u new_balance storable.user_row storable.user_fits
                  (λ _. solvent)),
          enough,
        )
        refl

  -- On sound books, when the accounts are ready, the amount is positive, the user's balance does not
  -- fall below 0, and the new rows fit the columns and CHECK constraints, `post` commits: it tells the
  -- posted amount and the user's new balance, and it leaves the user's and the system's account with the
  -- amount moved between them. The same request again is answered in the same way, and changes nothing.
  pub post-commits :
      pos 0 ≤ℤ new_balance
      → IsStorable input u v new_balance new_system_balance l
      → (t : PostedTransaction) × (s : Ledger) × (post g input l ≡ ok (t, s))
        × Posted input w u v new_balance new_system_balance t s
        × (post g input s ≡ ok (t, s))
  unfolding rethrown
  post-commits solvent storable =
      let at_v = account_by_key-at_id (system_key_of input.type) l v sound ready.system in
      let (t, s, commits, posted, again) =
        writes_commit g input w u v l new_balance new_system_balance (moving solvent) storable
          (found_has_wallet w.id l u ready.account)
          (keyed_is_system (system_key_of input.type) v l sound at_v
            (found_has_key (system_key_of input.type) l v ready.system))
          ready.at_id ready.new in
      (t, s, post_is_writes solvent storable ∙ rw commits refl, posted, again)

  -- On sound books, when the accounts are ready and the amount is positive, a debit that would leave
  -- the user's balance below 0 is refused with WALLET_INSUFFICIENT_BALANCE.
  pub post-refuses :
      input.direction ≡ debit
      → ltb_ℤ u.current_balance input.amount ≡ true
      → post g input l ≡ throw (coded wallet_insufficient_balance)
  unfolding post post_new after throw_if checked rethrown next_balance
  post-refuses is_debit short =
      let active : is_suspended w.status ≡ false = ground (arith, ready.writable) in
      let open_wallet : is_closed w.status ≡ false = ground (arith, ready.writable) in
      let not_zero : leb_ℤ input.amount (pos 0) ≡ false = ground (arith, positive) in
      let below : ltb_ℤ (u.current_balance -ℤ input.amount) (pos 0) ≡ true =
        ground (arith, -ℤ_parts u.current_balance input.amount, short) in
      rw
        (
          ready.new,
          ensure_accounts-ok g input w u v l ready,
          active,
          open_wallet,
          system_account-ok g input w u v l ready,
          balance_of-ok {C = WalletErrorCode} u.id l u at_u,
          is_debit,
          not_zero,
          below,
        )
        refl
