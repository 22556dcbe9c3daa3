-- ===== src/Backing/Postings.antt =====
-- `post` and `ensureWallet` of the wallet repository
-- (packages/wallet/src/infrastructure/prisma-wallet-repository.ts) leave the escrow accounts alone.
use arena_core.Prelude.{
  ℕ, ◌≡◌, refl, ap, ◌∙◌, Bool, true, false, Option, some, none, arith, if◌then◌else◌, Bool-cases,
  Option-cases, inl, inr,
}
use arena_core.Prelude.Int.{ℤ, int_laws}
use arena_core.Prelude.Guarded.{Ensures-Guarded}
use arena_core.Prelude.Outcome.{
  Ensures, committed, Ensures-after, Ensures-throw_if, Ensures-or_throw, Ensures-ok, Ensures-both,
  Ensures-map, after,
}
use arena_core.Ledger.{
  Ledger, LedgerAccount, SystemKey, LedgerTransaction, WalletRow, Platform, arena_point_issuance,
  arena_point_adjustment, match_escrow_key, key_eq, has_key, has_wallet, system_issuance,
  system_adjustment, account_by_id, update_balance_if, set_balance, write_balance,
  create_audit_event, WalletAuditEvent, transaction_by_key, is_issuance,
}
use arena_core.Wallet.Repository.{PostLedgerInput, ensure_accounts, system_account, map_transaction}
use arena_core.Wallet.Posting.{post, post_new, covers}
use arena_core.Wallet.Policies.{WalletErrorCode}
use arena_core.Books.Invariant.{IsSound}
use arena_core.Books.Tables.{upsert_account-IsSound}
use arena_core.Books.Rows.{upsert_wallet-IsSound, set_balance-Guarded}
use arena_core.Books.Steps.{
  Ensures-checked, Ensures-rethrown, map_transaction-reads, user_account-find, account_by_key-find,
  has_wallet_row, has_key_row,
}
use arena_core.Books.Movement.{balance_of-ok, update_balance_if-Guarded}
use arena_core.Books.Posting.{replay-reads}
use arena_core.Backing.Escrows.{
  IsIndexed, Kept, Moves, Moves-change, Moves-both, Moves-same_accounts, nothing,
  write_balance-Moves,
}
use arena_core.Backing.Accounts.{
  user_account-Moves, system_account-Moves, upsert_wallet-Moves, create_transaction-Moves,
}
use arena_core.Backing.Transfers.{unkeyed_of_user}

-- From `l` to `s` no escrow moves.
abbrev pub Quiet : Ledger → Ledger → Type 0
Quiet l s = Moves nothing l s

pub Quiet-then : (l s t : Ledger) → Quiet l s → Quiet s t → Quiet l t
Quiet-then l s t h k =
    Moves-change _ nothing l t (λ m. omega int_laws) (Moves-both nothing nothing l s t h k)

-- The account is there, and it is no escrow.
record NoEscrow (id : ℕ) (l : Ledger) : Type 0 where
  row : LedgerAccount
  at : account_by_id id l ≡ some row
  apart : (m : ℕ) → has_key (match_escrow_key m) row ≡ false

NoEscrow-Kept : (id : ℕ) (l s : Ledger) → Kept l s → NoEscrow id l → NoEscrow id s
NoEscrow-Kept id l s kept h =
    let (c, at_c, (_, _, same)) = kept id h.row h.at in
    record {
      row = c;
      at = at_c;
      apart = λ m.
          ap
            (λ (k : Option SystemKey). elim k [
              | none ↦ false
              | some x ↦ key_eq x (match_escrow_key m)
            ])
            same
          ∙ h.apart m;
    }

module _ (id : ℕ) (l : Ledger) (h : IsIndexed l) (k : NoEscrow id l) where
  write-Quiet : (v : ℤ) → Quiet l (write_balance id v l)
  write-Quiet v =
      Moves-change _ nothing l _ (λ m. rw (k.apart m) refl)
        (write_balance-Moves id v l k.row h k.at)

  update_balance_if-Quiet :
      {C : Type 0} (test : LedgerAccount → Bool) (value : LedgerAccount → ℤ)
      → Ensures (λ _ s. Quiet l s) (update_balance_if {C = C} id test value l)
  update_balance_if-Quiet {C = C} test value =
      Ensures-Guarded (update_balance_if-Guarded {C = C} id test value l k.row k.at)
        (elim (Bool-cases (test k.row)) [
          | inl passes ↦ rw passes (committed (write-Quiet (value k.row)))
          | inr fails ↦ rw fails (committed (Moves-same_accounts l l refl h))
        ])

  set_balance-Quiet : {C : Type 0} (v : ℤ) → Ensures (λ _ s. Quiet l s) (set_balance {C = C} id v l)
  set_balance-Quiet {C = C} v =
      Ensures-Guarded (set_balance-Guarded {C = C} id v l k.row k.at) (committed (write-Quiet v))

-- The wallet and the user's account, which is no escrow.
abbrev Ensured : Ledger → WalletRow × LedgerAccount → Ledger → Type 0
Ensured l p s = IsSound s × (Quiet l s × NoEscrow p.1.id s)

ensure_accounts-Ensured :
    (g : Platform) (user now : ℕ) (l : Ledger)
    → IsSound l
    → IsIndexed l
    → Ensures (Ensured l) (ensure_accounts g user now l)
unfolding ensure_accounts
ensure_accounts-Ensured g user now l h k = Ensures-ok _ l _ (
    Ensures-or_throw _ _ l _ λ u _.
      Ensures-after
        (Ensures-both _ (upsert_wallet-IsSound g user now l h) (upsert_wallet-Moves g user now l k))
        λ w s (h1, k1).
          Ensures-after
            (Ensures-both _
              (upsert_account-IsSound (has_wallet w.id) g _ _ s (user_account-find w.id)
                (has_wallet_row w.id) h1)
              (user_account-Moves g w.id s k1.indexed))
            λ a s' (p, k2). committed (
              p.0,
              (
                Quiet-then l s s' k1 k2,
                record {
                  row = a;
                  at = p.1;
                  apart =
                      λ m. unkeyed_of_user s' a (match_escrow_key m) p.0 p.1 (ground (arith, p.2));
                },
              ),
            ))

other_key :
    (key : Option SystemKey) (issuing : Bool) (m : ℕ)
    → (elim key [
      | none ↦ false
      | some x ↦ key_eq x (if issuing then arena_point_issuance else arena_point_adjustment)
    ])
      ≡ true
    → (elim key [ none ↦ false | some x ↦ key_eq x (match_escrow_key m) ]) ≡ false
other_key none issuing m h = refl
other_key (some arena_point_issuance) issuing m h = refl
other_key (some arena_point_adjustment) issuing m h = refl
other_key (some (match_escrow_key n)) true m h = cc
other_key (some (match_escrow_key n)) false m h = cc

system_account-Quiet :
    (g : Platform) (issuing : Bool) (l : Ledger)
    → IsSound l
    → IsIndexed l
    → Ensures (λ a s. IsSound s × (Quiet l s × NoEscrow a.id s)) (system_account g issuing l)
unfolding system_account
system_account-Quiet g true l h k =
    Ensures-map
      (Ensures-both _
        (upsert_account-IsSound (has_key arena_point_issuance) g _ _ l
          (account_by_key-find arena_point_issuance)
          (λ n. has_key_row system_issuance arena_point_issuance n refl refl) h)
        (system_account-Moves g system_issuance arena_point_issuance l k))
      λ a s (p, q).
        (p.0, (q, record { row = a; at = p.1; apart = λ m. other_key a.system_key true m p.2 }))
system_account-Quiet g false l h k =
    Ensures-map
      (Ensures-both _
        (upsert_account-IsSound (has_key arena_point_adjustment) g _ _ l
          (account_by_key-find arena_point_adjustment)
          (λ n. has_key_row system_adjustment arena_point_adjustment n refl refl) h)
        (system_account-Moves g system_adjustment arena_point_adjustment l k))
      λ a s (p, q).
        (p.0, (q, record { row = a; at = p.1; apart = λ m. other_key a.system_key false m p.2 }))

audited-Quiet :
    (t : LedgerTransaction) (e : WalletAuditEvent) (l s : Ledger)
    → Quiet l s
    → Ensures (λ _ s'. Quiet l s') (after (create_audit_event e s) (λ _. map_transaction t))
unfolding create_audit_event
audited-Quiet t e l s h = Ensures-ok _ _ _ (
    Ensures-map (map_transaction-reads t _)
      λ p s' same. rw same (Quiet-then l s _ h (Moves-same_accounts s _ refl h.indexed)))

post_new-Quiet :
    (g : Platform) (input : PostLedgerInput) (l : Ledger)
    → IsSound l
    → IsIndexed l
    → Ensures (λ _ s. Quiet l s) (post_new g input l)
unfolding post_new
post_new-Quiet g input l h k =
    Ensures-after (ensure_accounts-Ensured g input.user_id input.now l h k) λ p s (h1, (q1, u)).
      Ensures-throw_if _ _ s _ λ _. Ensures-throw_if _ _ s _ λ _.
        Ensures-after (system_account-Quiet g (is_issuance input.type) s h1 q1.indexed)
          λ v s2 (h2, (q2, w)).
            let u2 = NoEscrow-Kept p.1.id s s2 q2.kept u in
            rw (balance_of-ok {C = WalletErrorCode} p.1.id s2 u2.row u2.at) (
              Ensures-ok _ s2 _ (
                Ensures-checked _ s2 _ λ after_u _. Ensures-checked _ s2 _ λ after_v _.
                  Ensures-after
                    (update_balance_if-Quiet p.1.id s2 q2.indexed u2
                      (covers input.direction input.amount) (λ _. after_u))
                    λ count s3 q3. Ensures-throw_if _ _ s3 _ λ _.
                      Ensures-after
                        (set_balance-Quiet v.id s3 q3.indexed (NoEscrow-Kept v.id s2 s3 q3.kept w)
                          after_v)
                        λ _ s4 q4.
                          Ensures-after (create_transaction-Moves g _ s4 q4.indexed) λ t s5 q5.
                            audited-Quiet t _ l s5 (
                              Quiet-then l s s5 q1 (
                                Quiet-then s s2 s5 q2
                                  (Quiet-then s2 s3 s5 q3 (Quiet-then s3 s4 s5 q4 q5))))))

-- From sound books, `post` moves the balance of no escrow account.
pub post-Quiet :
    (g : Platform) (input : PostLedgerInput) (l : Ledger)
    → IsSound l
    → IsIndexed l
    → Ensures (λ _ s. Quiet l s) (post g input l)
unfolding post
post-Quiet g input l h k =
    Ensures-rethrown (elim (Option-cases (transaction_by_key input.idempotency_key l)) [
      | inl missing ↦ rw missing (post_new-Quiet g input l h k)
      | inr (t, present) ↦ rw present (
          Ensures-map (replay-reads input.fingerprint t l)
            λ _ s same. rw same (Moves-same_accounts l l refl k))
    ])
