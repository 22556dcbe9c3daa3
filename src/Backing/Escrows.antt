-- ===== src/Backing/Escrows.antt =====
-- How the queries on the ledger tables move the balances of the escrow accounts.
use mathlib.Core.Option
use arena_core.Prelude.{
  ℕ, ◌≡◌, refl, sym, ap, ◌∙◌, true, none, some, List, [], ◌∷◌, arith, ◌==◌, if◌then◌else◌,
  Bool-cases, Option-cases, inl, inr, find, distinct,
}
use arena_core.Prelude.Int.{ℤ, pos, ◌+ℤ◌, ◌-ℤ◌, int_laws}
use arena_core.Ledger.{
  Ledger, LedgerAccount, SystemKey, match_escrow_key, account_ids, account_by_id, account_by_key,
  has_key, update_row, with_balance, write_balance,
}
use arena_core.Finance.Adapter.{get_escrow_balance}
use arena_core.Books.Invariant.{account_by_id-write, account_ids-update_row}
use arena_core.Books.Tables.{find-id}
use arena_core.Books.Rows.{found_has_key, account_by_id-id}

-- The unique keys of `ledger_accounts`: a row is the one that its identifier and its system key find.
pub record IsIndexed (l : Ledger) : Type 0 where
  pub unique : distinct (account_ids l.accounts) ≡ true
  pub keyed :
      (key : SystemKey) (id : ℕ) (a : LedgerAccount)
      → account_by_id id l ≡ some a
      → has_key key a ≡ true
      → account_by_key key l ≡ some a

-- `c` is the row `b` with, perhaps, another balance.
abbrev pub SameAccount : LedgerAccount → LedgerAccount → Type 0
SameAccount b c = (c.id ≡ b.id) × (c.type ≡ b.type) × (c.system_key ≡ b.system_key)

abbrev pub Kept : Ledger → Ledger → Type 0
Kept l l' =
    (j : ℕ) (b : LedgerAccount)
    → account_by_id j l ≡ some b
    → (c : LedgerAccount) × (account_by_id j l' ≡ some c) × SameAccount b c

-- From `l` to `l'` the escrow of each match `m` gets `change m` more.
pub record Moves (change : ℕ → ℤ) (l l' : Ledger) : Type 0 where
  pub indexed : IsIndexed l'
  pub kept : Kept l l'
  pub escrows : (m : ℕ) → get_escrow_balance m l' ≡ get_escrow_balance m l +ℤ change m

abbrev pub nothing : ℕ → ℤ
nothing m = pos 0

pub Moves-change :
    (c d : ℕ → ℤ) (l l' : Ledger) → ((m : ℕ) → c m ≡ d m) → Moves c l l' → Moves d l l'
Moves-change c d l l' same h = record {
  indexed = h.indexed;
  kept = h.kept;
  escrows = λ m. h.escrows m ∙ ap (λ z. get_escrow_balance m l +ℤ z) (same m);
}

pub Moves-both :
    (c d : ℕ → ℤ) (l l' l'' : Ledger)
    → Moves c l l'
    → Moves d l' l''
    → Moves (λ m. c m +ℤ d m) l l''
Moves-both c d l l' l'' h k = record {
  indexed = k.indexed;
  kept = λ j b e.
      let (b', e', (i, t, y)) = h.kept j b e in
      let (b'', e'', (i', t', y')) = k.kept j b' e' in (b'', e'', (i' ∙ i, t' ∙ t, y' ∙ y));
  escrows = λ m. let one = h.escrows m in let two = k.escrows m in grind (int_laws, one, two);
}

-- Tables with the same accounts.
pub Moves-same_accounts :
    (l l' : Ledger) → l'.accounts ≡ l.accounts → IsIndexed l → Moves nothing l l'
unfolding account_by_id account_by_key get_escrow_balance
Moves-same_accounts l l' same h = record {
  indexed = record {
    unique = rw same h.unique;
    keyed = λ k j a e. rw same (h.keyed k j a (rw same at e));
  };
  kept = λ j b e. (b, rw same e, (refl, refl, refl));
  escrows = λ m. rw same (omega int_laws);
}

key_of_written :
    (key : SystemKey) (id : ℕ) (v : ℤ) (rows : List LedgerAccount)
    → find (has_key key) (update_row id (with_balance v) rows)
      ≡ Option.map
          (λ (b : LedgerAccount). if b.id == id then with_balance v b else b)
          (find (has_key key) rows)
unfolding update_row
key_of_written key id v [] = refl
key_of_written key id v (a ∷ rows) = ground (arith, key_of_written key id v rows)

account_by_key-write :
    (key : SystemKey) (id : ℕ) (v : ℤ) (l : Ledger)
    → account_by_key key (write_balance id v l)
      ≡ Option.map
          (λ (b : LedgerAccount). if b.id == id then with_balance v b else b)
          (account_by_key key l)
unfolding account_by_key
account_by_key-write key id v l = key_of_written key id v l.accounts

pub account_at_key :
    (key : SystemKey) (l : Ledger) (b : LedgerAccount)
    → IsIndexed l
    → account_by_key key l ≡ some b
    → account_by_id b.id l ≡ some b
unfolding account_by_id account_by_key
account_at_key key l b h found = find-id (has_key key) l.accounts b h.unique found

pub escrow_missing :
    (m : ℕ) (l : Ledger)
    → account_by_key (match_escrow_key m) l ≡ none
    → get_escrow_balance m l ≡ pos 0
unfolding get_escrow_balance
escrow_missing m l e = rw (get_escrow_balance, e) refl

pub escrow_found :
    (m : ℕ) (l : Ledger) (b : LedgerAccount)
    → account_by_key (match_escrow_key m) l ≡ some b
    → get_escrow_balance m l ≡ b.current_balance
unfolding get_escrow_balance
escrow_found m l b e = rw (get_escrow_balance, e) refl

-- What a written balance does to the account of a key.
module _ (id : ℕ) (v : ℤ) (l : Ledger) (a : LedgerAccount) (h : IsIndexed l)
    (at_a : account_by_id id l ≡ some a) where
  write_balance-Kept : Kept l (write_balance id v l)
  write_balance-Kept j b e = elim (Bool-cases (id == j)) [
    | inl here ↦
        (with_balance v b, ground (arith, account_by_id-write id j v l), (refl, refl, refl))
    | inr there ↦ (b, ground (arith, account_by_id-write id j v l), (refl, refl, refl))
  ]

  keyed_after :
      (key : SystemKey) (j : ℕ) (b c : LedgerAccount)
      → account_by_id j (write_balance id v l) ≡ some b
      → has_key key b ≡ true
      → account_by_id j l ≡ some c
      → account_by_key key (write_balance id v l) ≡ some b
  keyed_after key j b c e k at_c =
      let c_id = account_by_id-id j l c at_c in
      elim (Bool-cases (id == j)) [
        | inl here ↦
            let same : some (with_balance v c) ≡ some b =
              ground (arith, account_by_id-write id j v l) in
            let one : with_balance v c ≡ b = cc same in
            let found = h.keyed key j c at_c (rw (← one) at k) in
            rw (account_by_key-write key id v l, found, ← one) (ground arith)
        | inr there ↦
            let same : some c ≡ some b = ground (arith, account_by_id-write id j v l) in
            let one : c ≡ b = cc same in
            let found = h.keyed key j c at_c (rw (← one) at k) in
            rw (account_by_key-write key id v l, found, ← one) (ground arith)
      ]

  write_balance-IsIndexed : IsIndexed (write_balance id v l)
  write_balance-IsIndexed = record {
    unique = rw (account_ids-update_row id v l.accounts) h.unique;
    keyed = λ key j b e k. elim (Option-cases (account_by_id j l)) [
      | inl missing ↦ absurd (ground (arith, account_by_id-write id j v l))
      | inr (c, at_c) ↦ keyed_after key j b c e k at_c
    ];
  }

  abbrev written_change : ℕ → ℤ
  written_change m = if has_key (match_escrow_key m) a then v -ℤ a.current_balance else pos 0

  escrow_untouched :
      (m : ℕ)
      → account_by_key (match_escrow_key m) l ≡ none
      → get_escrow_balance m (write_balance id v l) ≡ get_escrow_balance m l +ℤ written_change m
  escrow_untouched m missing =
      let still : account_by_key (match_escrow_key m) (write_balance id v l) ≡ none =
        rw (account_by_key-write (match_escrow_key m) id v l, missing) refl in
      elim (Bool-cases (has_key (match_escrow_key m) a)) [
        | inl mine ↦ absurd (ground (arith, h.keyed (match_escrow_key m) id a at_a))
        | inr other ↦
            rw (escrow_missing m l missing, escrow_missing m (write_balance id v l) still, other)
              (omega int_laws)
      ]

  escrow_written :
      (m : ℕ) (b : LedgerAccount)
      → account_by_key (match_escrow_key m) l ≡ some b
      → get_escrow_balance m (write_balance id v l) ≡ get_escrow_balance m l +ℤ written_change m
  escrow_written m b found =
      let key = match_escrow_key m in
      let at_b = account_at_key key l b h found in
      elim (Bool-cases (b.id == id)) [
        | inl here ↦
            let same_id : b.id ≡ id = ground arith in
            let one : b ≡ a = cc in
            let written : account_by_key key (write_balance id v l) ≡ some (with_balance v b) =
              rw (account_by_key-write key id v l, found, here) refl in
            let mine : has_key key a ≡ true = rw (← one) (found_has_key key l b found) in
            rw (escrow_found m l b found, escrow_found m _ (with_balance v b) written, mine, one)
              (grind int_laws)
        | inr there ↦
            let kept : account_by_key key (write_balance id v l) ≡ some b =
              rw (account_by_key-write key id v l, found, there) refl in
            elim (Bool-cases (has_key key a)) [
              | inl mine ↦
                  let one : some b ≡ some a = sym found ∙ h.keyed key id a at_a mine in
                  let same : b ≡ a = cc one in
                  let a_id = account_by_id-id id l a at_a in
                  absurd (ground (arith, ap (λ (x : LedgerAccount). x.id) same))
              | inr other ↦
                  rw (escrow_found m l b found, escrow_found m _ b kept, other) (omega int_laws)
            ]
      ]

  write_balance-escrow :
      (m : ℕ)
      → get_escrow_balance m (write_balance id v l) ≡ get_escrow_balance m l +ℤ written_change m
  write_balance-escrow m = elim (Option-cases (account_by_key (match_escrow_key m) l)) [
    | inl missing ↦ escrow_untouched m missing
    | inr (b, found) ↦ escrow_written m b found
  ]

  pub write_balance-Moves : Moves written_change l (write_balance id v l)
  write_balance-Moves = record {
    indexed = write_balance-IsIndexed;
    kept = write_balance-Kept;
    escrows = write_balance-escrow;
  }
