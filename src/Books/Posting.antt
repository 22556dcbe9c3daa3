-- ===== src/Books/Posting.antt =====
-- `post` (packages/wallet/src/infrastructure/prisma-wallet-repository.ts) keeps the invariant of
-- the books.
use arena_core.Prelude.{
  ℕ, ◌≡◌, refl, true, false, some, [], ◌∷◌, arith, Text, ◌==◌, if◌then◌else◌, Bool-cases,
  Option-cases, inl, inr,
}
use arena_core.Prelude.Int.{ℤ}
use arena_core.Prelude.Guarded.{Ensures-Guarded-after}
use arena_core.Prelude.Outcome.{
  Ensures-map, ok, Ensures, Ensures-after, Ensures-throw_if, Ensures-ok, after,
}
use arena_core.Ledger.{
  Ledger, LedgerAccount, LedgerTransaction, is_user_available, account_by_id, write_balance,
  Platform, create_audit_event, create_transaction, set_balance, WalletRow, transaction_by_key,
  has_wallet, opposite, is_issuance,
}
use arena_core.Prelude.Outcome.{◌>>=◌, ◌>>◌, throw_if}
use arena_core.Ledger.{coded, points_issued, balance_adjusted, requested}
use arena_core.Wallet.Policies.{wallet_insufficient_balance, next_balance}
use arena_core.Wallet.Posting.{post_new, post, replay, entry, posting_row, covers}
use arena_core.Wallet.Repository.{WalletTx, PostedTransaction, PostLedgerInput, map_transaction}
use arena_core.Books.Invariant.{IsSound}
use arena_core.Books.Rows.{set_balance-Guarded}
use arena_core.Books.Steps.{
  next_balance-eq_ok, Ensures-checked, Ensures-rethrown, map_transaction-reads,
  ensure_accounts-IsSound, system_account-IsSound, distinct_accounts,
}
use arena_core.Books.Movement.{
  Moving, second_found, create_sorted-IsSound, balance_of-ok, update_balance_if-Guarded,
  Ensures-audited,
}

module _ (input : PostLedgerInput) (w : WalletRow) (u v : LedgerAccount) (s : Ledger)
    (after_u after_v : ℤ) where
  moving_of :
      IsSound s
      → account_by_id u.id s ≡ some u
      → account_by_id v.id s ≡ some v
      → has_wallet w.id u ≡ true
      → is_user_available v.type ≡ false
      → next_balance u.current_balance input.direction input.amount true ≡ ok after_u
      → next_balance v.current_balance (opposite input.direction) input.amount false ≡ ok after_v
      → Moving s u v input.direction input.amount after_u after_v
  moving_of h at_u at_v user system eu ev =
      let (u_moves, positive, u_solvent) =
        next_balance-eq_ok u.current_balance input.direction input.amount true eu in
      let (v_moves, _, _) =
        next_balance-eq_ok v.current_balance (opposite input.direction) input.amount false ev in
      record {
        sound = h;
        at_u = at_u;
        at_v = at_v;
        apart = distinct_accounts u v s at_u at_v (ground arith) system;
        positive = positive;
        u_moves = u_moves;
        v_moves = v_moves;
        u_solvent = λ _. u_solvent refl;
        v_solvent = λ e. absurd (ground arith);
      }

-- The writes of `post`, after all its checks.
abbrev pub post_writes :
    Platform
    → PostLedgerInput
    → WalletRow
    → LedgerAccount
    → LedgerAccount
    → ℤ
    → ℤ
    → ℕ
    → WalletTx PostedTransaction
post_writes g input w u v after_u after_v count = do
  throw_if (count == 0) (coded wallet_insufficient_balance)
  set_balance v.id after_v
  transaction ← create_transaction g (
      posting_row input (
        entry u.id input.direction input.amount after_u
        ∷ entry v.id (opposite input.direction) input.amount after_v
        ∷ []))
  create_audit_event (record {
    wallet_id = w.id;
    actor_user_id = input.actor_user_id;
    action = if is_issuance input.type then points_issued else balance_adjusted;
    reason_code = requested input.reason_code;
    transaction_id = some transaction.id;
    note = input.note;
  })
  map_transaction transaction

post_written :
    (g : Platform) (input : PostLedgerInput) (w : WalletRow) (u v : LedgerAccount) (s : Ledger)
    (after_u after_v : ℤ)
    → Moving s u v input.direction input.amount after_u after_v
    → Ensures
        (λ _ l. IsSound l)
        (after
          (if covers input.direction input.amount u
            then ok (1, write_balance u.id after_u s)
            else ok (0, s))
          (post_writes g input w u v after_u after_v))
unfolding posting_row
post_written g input w u v s after_u after_v m =
    elim (Bool-cases (covers input.direction input.amount u)) [
      | inl enough ↦ rw enough (
          Ensures-ok _ _ _ (
            Ensures-throw_if _ _ _ _ λ _.
              Ensures-Guarded-after _
                (set_balance-Guarded v.id after_v (write_balance u.id after_u s) v
                  (second_found s u v input.direction input.amount after_u after_v m))
                (Ensures-ok _ _ _ (
                  Ensures-after
                    (create_sorted-IsSound s u v input.direction input.amount after_u after_v g _
                      (λ id. refl) m)
                    λ t l k. Ensures-audited t _ l k))))
      | inr short ↦
          rw short (Ensures-ok _ _ _ (Ensures-throw_if _ _ _ _ λ e. absurd (ground arith)))
    ]

post_new-IsSound :
    (g : Platform) (input : PostLedgerInput) (l : Ledger)
    → IsSound l
    → Ensures (λ _ s. IsSound s) (post_new g input l)
unfolding post_new
post_new-IsSound g input l h =
    Ensures-after (ensure_accounts-IsSound g input.user_id input.now l h) λ p s r.
      Ensures-throw_if _ _ s _ λ _. Ensures-throw_if _ _ s _ λ _.
        Ensures-after (system_account-IsSound g (is_issuance input.type) s r.0) λ v s' q.
          rw (balance_of-ok p.1.id s' p.1 (q.3 p.1.id p.1 r.1)) (
            Ensures-ok _ s' _ (
              Ensures-checked _ s' _ λ after_u eu. Ensures-checked _ s' _ λ after_v ev.
                Ensures-Guarded-after _
                  (update_balance_if-Guarded p.1.id (covers input.direction input.amount)
                    (λ _. after_u) s' p.1 (q.3 p.1.id p.1 r.1))
                  (post_written g input p.0 p.1 v s' after_u after_v (
                    moving_of input p.0 p.1 v s' after_u after_v q.0 (q.3 p.1.id p.1 r.1) q.1 r.2
                      q.2 eu ev))))

pub replay-reads :
    (fingerprint : Text) (t : LedgerTransaction) (l : Ledger)
    → Ensures (λ _ s. s ≡ l) (replay fingerprint t l)
unfolding replay
replay-reads fingerprint t l = Ensures-throw_if _ _ l _ λ _. map_transaction-reads t l

-- From sound books, `post` commits sound books: every balance is the sum of the account's entries,
-- no user's balance is negative, and every transaction is balanced.
pub post-IsSound :
    (g : Platform) (input : PostLedgerInput) (l : Ledger)
    → IsSound l
    → Ensures (λ _ s. IsSound s) (post g input l)
unfolding post
post-IsSound g input l h =
    Ensures-rethrown (elim (Option-cases (transaction_by_key input.idempotency_key l)) [
      | inl missing ↦ rw missing (post_new-IsSound g input l h)
      | inr (t, present) ↦
          rw present (Ensures-map (replay-reads input.fingerprint t l) λ _ s same. rw same h)
    ])
