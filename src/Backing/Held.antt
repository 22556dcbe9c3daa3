-- ===== src/Backing/Held.antt =====
-- What the reservations of a match hold in its escrow
-- (packages/match-finance/src/infrastructure/prisma-match-finance-repository.ts), and how the writes of
-- the repository change it.
use arena_core.Prelude.{
  ℕ, ◌≡◌, refl, ap, Bool, true, false, ◌&&◌, ◌||◌, some, List, [], ◌∷◌, arith, ◌==◌, if◌then◌else◌,
  Bool-cases, inl, inr, contains, distinct, All, All-map, find-passes,
}
use arena_core.Prelude.Int.{ℤ, pos, ◌+ℤ◌, ◌-ℤ◌, int_laws}
use arena_core.Ledger.{Ledger}
use arena_core.Finance.Types.{ReservationStatus, is_reserved, is_released}
use arena_core.Finance.Store.{ReservationRow}
use arena_core.Finance.Repository.{row_by_id}
use arena_core.Finance.Writes.{rewrite_rows}
use arena_core.Backing.Escrows.{Kept}
use arena_core.Backing.Reserving.{HasAccountsOf, HasAccountsOf-Kept}

abbrev pub is_held : ReservationStatus → Bool
is_held status = is_reserved status || is_released status

-- What one reservation holds for the match `m`.
abbrev pub held_by : ReservationRow → ℕ → ℤ
held_by r m = if r.match_id == m && is_held r.status then r.amount else pos 0

unfoldable pub held : ℕ → List ReservationRow → ℤ
held m [] = pos 0
held m (r ∷ rs) = held_by r m +ℤ held m rs

abbrev pub row_ids : List ReservationRow → List ℕ
row_ids [] = []
row_ids (r ∷ rs) = r.id ∷ row_ids rs

-- A reservation that holds points tells its user's account and the escrow of its match.
pub record Accounts (l : Ledger) (r : ReservationRow) : Type 0 where
  pub user_id : ℕ
  pub escrow_id : ℕ
  pub tells_user : r.ledger_account_id ≡ some user_id
  pub tells_escrow : r.escrow_account_id ≡ some escrow_id
  pub rows : HasAccountsOf r.match_id user_id escrow_id l

abbrev pub IsLinked : Ledger → ReservationRow → Type 0
IsLinked l r = is_held r.status ≡ true → Accounts l r

pub IsLinked-Kept : (l l' : Ledger) (r : ReservationRow) → Kept l l' → IsLinked l r → IsLinked l' r
IsLinked-Kept l l' r kept h held =
    let k = h held in
    record {
      user_id = k.user_id;
      escrow_id = k.escrow_id;
      tells_user = k.tells_user;
      tells_escrow = k.tells_escrow;
      rows = HasAccountsOf-Kept r.match_id k.user_id k.escrow_id l l' kept k.rows;
    }

module _ (test : ReservationRow → Bool) (f : ReservationRow → ReservationRow) where
  pub row_ids-rewrite :
      (rows : List ReservationRow)
      → ((r : ReservationRow) → (f r).id ≡ r.id)
      → row_ids (rewrite_rows test f rows) ≡ row_ids rows
  unfolding rewrite_rows
  row_ids-rewrite [] same = refl
  row_ids-rewrite (r ∷ rows) same = elim (Bool-cases (test r)) [
    | inl hit ↦ rw (hit, same r, row_ids-rewrite rows same) refl
    | inr miss ↦ rw (miss, row_ids-rewrite rows same) refl
  ]

  pub All-rewrite :
      (P : ReservationRow → Type 0) (rows : List ReservationRow)
      → ((r : ReservationRow) → test r ≡ true → P r → P (f r))
      → All P rows
      → All P (rewrite_rows test f rows)
  unfolding rewrite_rows
  All-rewrite P [] keeps h = tt
  All-rewrite P (r ∷ rows) keeps (p, h) = elim (Bool-cases (test r)) [
    | inl hit ↦ rw hit (keeps r hit p, All-rewrite P rows keeps h)
    | inr miss ↦ rw miss (p, All-rewrite P rows keeps h)
  ]

  pub held-rewrite_same :
      (m : ℕ) (rows : List ReservationRow)
      → ((r : ReservationRow) → test r ≡ true → held_by (f r) m ≡ held_by r m)
      → held m (rewrite_rows test f rows) ≡ held m rows
  unfolding rewrite_rows held
  held-rewrite_same m [] same = refl
  held-rewrite_same m (r ∷ rows) same = elim (Bool-cases (test r)) [
    | inl hit ↦ rw (hit, held-rewrite_same m rows same) (ap (λ z. z +ℤ held m rows) (same r hit))
    | inr miss ↦ rw (miss, held-rewrite_same m rows same) refl
  ]

module _ (id : ℕ) (f : ReservationRow → ReservationRow) where
  abbrev is_it : ReservationRow → Bool
  is_it r = r.id == id

  absent-rewrite :
      (rows : List ReservationRow)
      → contains (row_ids rows) id ≡ false
      → rewrite_rows is_it f rows ≡ rows
  unfolding rewrite_rows
  absent-rewrite [] gone = refl
  absent-rewrite (r ∷ rows) gone = elim (Bool-cases (r.id == id)) [
    | inl here ↦ absurd (ground arith)
    | inr there ↦ rw (there, absent-rewrite rows (ground arith)) refl
  ]

  -- Rewriting the row of an identifier replaces what it holds.
  pub held-rewrite :
      (m : ℕ) (rows : List ReservationRow) (row : ReservationRow)
      → distinct (row_ids rows) ≡ true
      → row_by_id id rows ≡ some row
      → held m (rewrite_rows is_it f rows) ≡ (held m rows +ℤ held_by (f row) m) -ℤ held_by row m
  unfolding rewrite_rows held row_by_id
  held-rewrite m [] row d found = cc
  held-rewrite m (r ∷ rows) row d found = elim (Bool-cases (r.id == id)) [
    | inl here ↦
        let same : some r ≡ some row = rw here at found in
        let one : r ≡ row = cc same in
        let same_id : r.id ≡ id = ground arith in
        rw (here, absent-rewrite rows (ground (arith, d)), one) (grind int_laws)
    | inr there ↦
        let rest = held-rewrite m rows row (ground (arith, d)) (rw there at found) in
        rw (there, rest) (grind int_laws)
  ]

-- The row of an identifier, and the row that is found.
pub row_by_id-id :
    (id : ℕ) (rows : List ReservationRow) (row : ReservationRow)
    → row_by_id id rows ≡ some row
    → row.id ≡ id
unfolding row_by_id
row_by_id-id id rows row found =
    let passes = find-passes (λ (r : ReservationRow). r.id == id) rows found in ground arith

contains-row_by_id :
    (id : ℕ) (rows : List ReservationRow) (row : ReservationRow)
    → row_by_id id rows ≡ some row
    → contains (row_ids rows) id ≡ true
unfolding row_by_id
contains-row_by_id id [] row found = cc
contains-row_by_id id (r ∷ rows) row found = elim (Bool-cases (r.id == id)) [
  | inl here ↦ ground arith
  | inr there ↦ let later = contains-row_by_id id rows row (rw there at found) in ground arith
]

-- With unique identifiers each row is the one that its identifier finds.
abbrev pub Found : List ReservationRow → ReservationRow → Type 0
Found rows r = row_by_id r.id rows ≡ some r

Found-later :
    (first : ReservationRow) (rows : List ReservationRow) (r : ReservationRow)
    → contains (row_ids rows) first.id ≡ false
    → Found rows r
    → Found (first ∷ rows) r
unfolding row_by_id
Found-later first rows r gone found = elim (Bool-cases (first.id == r.id)) [
  | inl same ↦
      let here : first.id ≡ r.id = ground arith in
      let there = contains-row_by_id r.id rows r found in absurd (ground arith)
  | inr other ↦ rw other found
]

pub All-Found :
    (rows : List ReservationRow) → distinct (row_ids rows) ≡ true → All (Found rows) rows
unfolding row_by_id
All-Found [] d = tt
All-Found (r ∷ rows) d = (
  ground arith,
  All-map (Found rows) (Found (r ∷ rows)) rows
      (λ x found. Found-later r rows x (ground arith) found) (All-Found rows (ground arith)),
)
