-- ===== src/Books/Success.antt =====
-- When `post` (packages/wallet/src/infrastructure/prisma-wallet-repository.ts) commits, and what the
-- balances are then.
use arena_core.Prelude.{
  ℕ, ◌≡◌, refl, ap, ◌∙◌, Bool, true, false, Option, some, none, List, [], ◌∷◌, arith, ◌==◌, leb,
  Bool-cases, inl, inr, find, is_some, map, opt_eq, all,
}
use arena_core.Prelude.Int.{ℤ, pos, ◌+ℤ◌, ◌-ℤ◌, ◌≤ℤ◌, leb_ℤ, int_laws}
use arena_core.Prelude.Outcome.{Outcome, ok, after, throw_if, or_throw}
use arena_core.Wallet.Repository.{rethrown}
use arena_core.Wallet.Posting.{replay}
use arena_core.Prelude.{text_eq_refl, if◌then◌else◌}
use arena_core.Ledger.{
  is_issuance, points_issued, balance_adjusted, requested, Ledger, LedgerAccount, LedgerEntry,
  LedgerTransaction, WalletRow, LedgerDirection, is_user_available, account_by_id, with_balance,
  write_balance, Platform, breaks_unique_key, create_transaction, create_audit_event,
  transaction_by_key, reversed_by, has_wallet, opposite, entry_checks, transaction_checks,
  reversal_check, status_check,
}
use arena_core.Wallet.Policies.{next_balance, WalletError, WalletErrorCode}
use arena_core.Wallet.Repository.{
  PostedTransaction, PostLedgerInput, map_transaction, entry_on_user_account, owner_of_entry,
  sort_by_account, insert_by_account, number_from,
}
use arena_core.Wallet.Posting.{post, entry, posting_row}
use arena_core.Books.Invariant.{account_by_id-write}
use arena_core.Books.Rows.{set_balance-ok}
use arena_core.Books.Steps.{moved}
use arena_core.Books.Movement.{Moving, both_written, two_entries, second_found}
use arena_core.Books.Posting.{post_writes}
use arena_core.Books.Storable.{IsStorable, account_checks-with_balance, reference-accepted}

pub next_balance-ok :
    (current amount : ℤ) (direction : LedgerDirection) (user : Bool)
    → pos 1 ≤ℤ amount
    → (user ≡ true → pos 0 ≤ℤ (current +ℤ moved direction amount))
    → next_balance current direction amount user ≡ ok (current +ℤ moved direction amount)
unfolding next_balance
next_balance-ok current amount LedgerDirection.credit user positive solvent = ground arith
next_balance-ok current amount LedgerDirection.debit user positive solvent =
    let same : current -ℤ amount ≡ current +ℤ (pos 0 -ℤ amount) = omega int_laws in
    rw same (ground arith)

-- The posting's entry on the user's account is found, whichever comes first.
user_entry_found :
    (s : Ledger) (a b : LedgerEntry)
    → entry_on_user_account s a ≡ true
    → entry_on_user_account s b ≡ false
    → (e : LedgerEntry) × (find
          (entry_on_user_account s)
          (number_from 1 (sort_by_account (a ∷ b ∷ [])))
        ≡ some e)
      × (e.account_id ≡ a.account_id)
      × (e.direction ≡ a.direction)
      × (e.amount ≡ a.amount)
      × (e.balance_after ≡ a.balance_after)
unfolding number_from sort_by_account insert_by_account entry_on_user_account
user_entry_found s a b on_user on_system = elim (Bool-cases (leb a.account_id b.account_id)) [
  | inl first ↦ (record a { sequence = 1 }, rw (first, on_user) refl, refl, refl, refl, refl)
  | inr second ↦
      (record a { sequence = 2 }, rw (second, on_system, on_user) refl, refl, refl, refl, refl)
]

found_again :
    (p q : WalletRow → Bool) (rows : List WalletRow) (w : WalletRow)
    → find p rows ≡ some w
    → q w ≡ true
    → is_some (find q rows) ≡ true
found_again p q [] w e k = cc
found_again p q (r ∷ rows) w e k = ground (arith, found_again p q rows w)

-- What `mapTransaction` reads off a row.
abbrev view_of : LedgerTransaction → Ledger → LedgerEntry → ℕ → PostedTransaction
view_of row l e user_id = record {
  id = row.id;
  user_id = user_id;
  type = row.type;
  status = row.status;
  direction = e.direction;
  amount = e.amount;
  fingerprint = row.request_fingerprint;
  balance_after = e.balance_after;
  reversed_by_id = elim (reversed_by row.id l) [ none ↦ none | some t ↦ some t.id ];
}

map_transaction-ok :
    (row : LedgerTransaction) (l : Ledger) (e : LedgerEntry) (user_id : ℕ)
    → find (entry_on_user_account l) row.entries ≡ some e
    → owner_of_entry l e ≡ some user_id
    → map_transaction row l ≡ ok (view_of row l e user_id, l)
unfolding map_transaction after or_throw
map_transaction-ok row l e user_id found owner = rw (found, owner) refl

account_by_id-accounts :
    (j : ℕ) (l s : Ledger) → l.accounts ≡ s.accounts → account_by_id j l ≡ account_by_id j s
unfolding account_by_id
account_by_id-accounts j l s same = ap (find (λ a. a.id == j)) same

opt_eq→eq : (o : Option ℕ) (n : ℕ) → opt_eq o (some n) ≡ true → o ≡ some n
opt_eq→eq none n h = cc
opt_eq→eq (some k) n h = ground arith

-- What the caller is told, and the two balances.
abbrev pub Posted :
    PostLedgerInput
    → WalletRow
    → LedgerAccount
    → LedgerAccount
    → ℤ
    → ℤ
    → PostedTransaction
    → Ledger
    → Type 0
Posted input w u v after_u after_v t l =
    (t.user_id ≡ w.user_id)
    × (t.direction ≡ input.direction)
    × (t.amount ≡ input.amount)
    × (t.balance_after ≡ after_u)
    × (account_by_id u.id l ≡ some (with_balance after_u u))
    × (account_by_id v.id l ≡ some (with_balance after_v v))

module _ (g : Platform) (input : PostLedgerInput) (w : WalletRow) (u v : LedgerAccount) (s : Ledger)
    (after_u after_v : ℤ) (m : Moving s u v input.direction input.amount after_u after_v)
    (storable : IsStorable input u v after_u after_v s) where
  abbrev moved_entries : List LedgerEntry
  moved_entries = two_entries s u v input.direction input.amount after_u after_v

  new_transaction_fits :
      (id : ℕ)
      → transaction_by_key input.idempotency_key s ≡ none
      → breaks_unique_key
          (posting_row input moved_entries id)
          (both_written s u v input.direction input.amount after_u after_v)
        ≡ false
  unfolding breaks_unique_key posting_row transaction_by_key entry sort_by_account insert_by_account
      number_from
  new_transaction_fits id new = elim (Bool-cases (leb u.id v.id)) [
    | inl first ↦
        let apart : (v.id == u.id) ≡ false = ground (arith, m.apart) in rw (new, first, apart) refl
    | inr second ↦ rw (new, second, m.apart) refl
  ]

  entries_accepted : all entry_checks (number_from 1 (sort_by_account moved_entries)) ≡ true
  unfolding entry_checks entry sort_by_account insert_by_account number_from
  entries_accepted =
      let positive : leb_ℤ (pos 1) input.amount ≡ true = ground (arith, m.positive) in
      elim (Bool-cases (leb u.id v.id)) [
        | inl first ↦
            rw (first, positive, storable.amount_fits, storable.user_fits, storable.system_fits)
              refl
        | inr second ↦
            rw (second, positive, storable.amount_fits, storable.user_fits, storable.system_fits)
              refl
      ]

  new_transaction_accepted :
      (id : ℕ) → transaction_checks s.users (posting_row input moved_entries id) ≡ true
  unfolding transaction_checks posting_row reversal_check status_check
  new_transaction_accepted id =
      rw
        (
          storable.key_accepted,
          storable.fingerprint_accepted,
          reference-accepted (is_issuance input.type),
          input.excludes_reversal,
          storable.note_accepted,
          storable.actor_known,
          entries_accepted,
        )
        refl

  final_user :
      account_by_id u.id (both_written s u v input.direction input.amount after_u after_v)
      ≡ some (with_balance after_u u)
  final_user = ground (
    arith,
    account_by_id-write v.id u.id after_v (write_balance u.id after_u s),
    account_by_id-write u.id u.id after_u s,
    m.at_u,
    m.apart,
  )

  final_system :
      account_by_id v.id (both_written s u v input.direction input.amount after_u after_v)
      ≡ some (with_balance after_v v)
  final_system = ground (
    arith,
    account_by_id-write v.id v.id after_v (write_balance u.id after_u s),
    second_found s u v input.direction input.amount after_u after_v m,
  )

  -- A commit of the posting after which the same request is answered in the same way, and changes
  -- nothing.
  abbrev pub Commits : Outcome WalletError (PostedTransaction × Ledger) → Type 0
  Commits r =
      (t : PostedTransaction) × (l : Ledger) × (r ≡ ok (t, l))
      × Posted input w u v after_u after_v t l
      × (post g input l ≡ ok (t, l))

  abbrev Told : ℕ → Ledger → Type 0
  Told id l =
      (t : PostedTransaction) × (map_transaction (posting_row input moved_entries id) l ≡ ok (t, l))
      × Posted input w u v after_u after_v t l

  owner_found :
      (l : Ledger) (e : LedgerEntry)
      → e.account_id ≡ u.id
      → has_wallet w.id u ≡ true
      → account_by_id u.id l ≡ some (with_balance after_u u)
      → find (λ r. r.id == w.id) l.wallets ≡ some w
      → owner_of_entry l e ≡ some w.user_id
  unfolding owner_of_entry
  owner_found l e at_u on_user found at_wallet =
      let theirs : u.wallet_id ≡ some w.id = opt_eq→eq u.wallet_id w.id (ground arith) in
      rw (at_u, owner_of_entry, found, theirs, at_wallet) refl

  receipt :
      (l : Ledger) (id : ℕ)
      → has_wallet w.id u ≡ true
      → is_user_available v.type ≡ false
      → account_by_id u.id l ≡ some (with_balance after_u u)
      → account_by_id v.id l ≡ some (with_balance after_v v)
      → find (λ r. r.id == w.id) l.wallets ≡ some w
      → Told id l
  unfolding posting_row entry entry_on_user_account
  receipt l id on_user on_system at_u at_v at_wallet =
      let on_u : entry_on_user_account l (entry u.id input.direction input.amount after_u) ≡ true =
        rw (entry_on_user_account, at_u) (ground arith) in
      let on_v : entry_on_user_account l
            (entry v.id (opposite input.direction) input.amount after_v)
          ≡ false =
        rw (entry_on_user_account, at_v) on_system in
      let (e, found, at, same_direction, same_amount, same_balance) =
        user_entry_found l (entry u.id input.direction input.amount after_u)
          (entry v.id (opposite input.direction) input.amount after_v) on_u on_v in
      let row = posting_row input moved_entries id in
      (
        view_of row l e w.user_id,
        map_transaction-ok row l e w.user_id found (owner_found l e at on_user at_u at_wallet),
        (refl, same_direction, same_amount, same_balance, at_u, at_v),
      )

  abbrev final_state : ℕ → Ledger
  final_state id = record (both_written s u v input.direction input.amount after_u after_v) {
    transactions = posting_row input moved_entries id ∷ s.transactions;
    audit_events =
        record {
          wallet_id = w.id;
          actor_user_id = input.actor_user_id;
          action = if is_issuance input.type then points_issued else balance_adjusted;
          reason_code = requested input.reason_code;
          transaction_id = some (posting_row input moved_entries id).id;
          note = input.note;
        }
        ∷ s.audit_events;
  }

  abbrev new_id : ℕ
  new_id = g.draw (map (λ (r : LedgerTransaction). r.id) s.transactions)

  writes_result :
      transaction_by_key input.idempotency_key s ≡ none
      → post_writes g input w u v after_u after_v 1 (write_balance u.id after_u s)
        ≡ map_transaction (posting_row input moved_entries new_id) (final_state new_id)
  unfolding after throw_if create_transaction create_audit_event
  writes_result new =
      rw
        (
          set_balance-ok {C = WalletErrorCode} v.id after_v (write_balance u.id after_u s) v
              (second_found s u v input.direction input.amount after_u after_v m)
              (account_checks-with_balance v after_v storable.system_row storable.system_fits
                m.v_solvent),
          new_transaction_accepted new_id,
          new_transaction_fits new_id new,
        )
        refl

  -- The same request again finds the new transaction.
  replayed :
      (id : ℕ)
      → post g input (final_state id)
        ≡ rethrown (map_transaction (posting_row input moved_entries id) (final_state id))
  unfolding post replay transaction_by_key posting_row after throw_if
  replayed id = rw (text_eq_refl input.idempotency_key, text_eq_refl input.fingerprint) refl

  pub writes_commit :
      has_wallet w.id u ≡ true
      → is_user_available v.type ≡ false
      → find (λ r. r.id == w.id) s.wallets ≡ some w
      → transaction_by_key input.idempotency_key s ≡ none
      → Commits (post_writes g input w u v after_u after_v 1 (write_balance u.id after_u s))
  unfolding rethrown
  writes_commit on_user on_system at_wallet new =
      let written = both_written s u v input.direction input.amount after_u after_v in
      let (t, told, posted) =
        receipt (final_state new_id) new_id on_user on_system
          (account_by_id-accounts u.id (final_state new_id) written refl ∙ final_user)
          (account_by_id-accounts v.id (final_state new_id) written refl ∙ final_system)
          at_wallet in
      (t, final_state new_id, writes_result new ∙ told, posted, replayed new_id ∙ rw told refl)
