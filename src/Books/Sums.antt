-- ===== src/Books/Sums.antt =====
-- Sums over the entries of a transaction: sorting and numbering leave them alone, and turning the
-- directions round negates them.
use arena_core.Prelude.{
  ℕ, suc, ◌≡◌, refl, ap, ◌∙◌, Bool, true, false, List, [], ◌∷◌, arith, leb, length, Bool-cases, inl,
  inr,
}
use arena_core.Prelude.Int.{int_laws}
use arena_core.Prelude.Outcome.{ok}
use arena_core.Ledger.{LedgerEntry, entry_account_ids}
use arena_core.Wallet.Policies.{side_total, assert_balanced}
use arena_core.Wallet.Posting.{entries_balance}
use arena_core.Wallet.Repository.{insert_by_account, sort_by_account, number_from}

-- What a transaction adds to the account `id` is not changed by sorting and numbering its entries.
entries_balance-insert :
    (id : ℕ) (e : LedgerEntry) (es : List LedgerEntry)
    → entries_balance id (insert_by_account e es) ≡ entries_balance id (e ∷ es)
unfolding entries_balance insert_by_account
entries_balance-insert id e [] = refl
entries_balance-insert id e (f ∷ es) = elim (Bool-cases (leb e.account_id f.account_id)) [
  | inl first ↦ rw first
  | inr later ↦ rw (later, entries_balance-insert id e es) (omega int_laws)
]

pub entries_balance-sort :
    (id : ℕ) (es : List LedgerEntry)
    → entries_balance id (sort_by_account es) ≡ entries_balance id es
unfolding entries_balance sort_by_account
entries_balance-sort id [] = refl
entries_balance-sort id (e ∷ es) =
    rw (entries_balance-insert id e (sort_by_account es), entries_balance-sort id es)

pub entries_balance-number :
    (id n : ℕ) (es : List LedgerEntry)
    → entries_balance id (number_from n es) ≡ entries_balance id es
unfolding entries_balance number_from
entries_balance-number id n [] = refl
entries_balance-number id n (e ∷ es) = rw (entries_balance-number id (suc n) es)

-- The totals of the two sides.
side_total-insert :
    (b : Bool) (e : LedgerEntry) (es : List LedgerEntry)
    → side_total b (insert_by_account e es) ≡ side_total b (e ∷ es)
unfolding side_total insert_by_account
side_total-insert true e [] = refl
side_total-insert false e [] = refl
side_total-insert true e (f ∷ es) = grind (int_laws, side_total-insert true e es)
side_total-insert false e (f ∷ es) = grind (int_laws, side_total-insert false e es)

pub side_total-sort :
    (b : Bool) (es : List LedgerEntry) → side_total b (sort_by_account es) ≡ side_total b es
unfolding side_total sort_by_account
side_total-sort b [] = refl
side_total-sort true (e ∷ es) =
    rw (side_total-insert true e (sort_by_account es), side_total-sort true es)
side_total-sort false (e ∷ es) =
    rw (side_total-insert false e (sort_by_account es), side_total-sort false es)

pub side_total-number :
    (b : Bool) (n : ℕ) (es : List LedgerEntry) → side_total b (number_from n es) ≡ side_total b es
unfolding side_total number_from
side_total-number b n [] = refl
side_total-number true n (e ∷ es) = rw (side_total-number true (suc n) es)
side_total-number false n (e ∷ es) = rw (side_total-number false (suc n) es)

length-insert :
    (e : LedgerEntry) (es : List LedgerEntry) → length (insert_by_account e es) ≡ suc (length es)
unfolding insert_by_account
length-insert e [] = refl
length-insert e (f ∷ es) = ground (arith, length-insert e es)

pub length-sort : (es : List LedgerEntry) → length (sort_by_account es) ≡ length es
unfolding sort_by_account
length-sort [] = refl
length-sort (e ∷ es) = length-insert e (sort_by_account es) ∙ ap suc (length-sort es)

pub length-number : (n : ℕ) (es : List LedgerEntry) → length (number_from n es) ≡ length es
unfolding number_from
length-number n [] = refl
length-number n (e ∷ es) = ap suc (length-number (suc n) es)

pub entry_account_ids-number :
    (n : ℕ) (es : List LedgerEntry) → entry_account_ids (number_from n es) ≡ entry_account_ids es
unfolding number_from
entry_account_ids-number n [] = refl
entry_account_ids-number n (e ∷ es) =
    ap (λ r. e.account_id ∷ r) (entry_account_ids-number (suc n) es)

-- Numbered entries, and sorted and numbered ones, are balanced if the entries are.
pub assert_balanced-number :
    (n : ℕ) (es : List LedgerEntry)
    → assert_balanced es ≡ ok tt
    → assert_balanced (number_from n es) ≡ ok tt
unfolding assert_balanced
assert_balanced-number n es h =
    rw (side_total-number true n es, side_total-number false n es, length-number n es) h

pub assert_balanced-sorted :
    (es : List LedgerEntry)
    → assert_balanced es ≡ ok tt
    → assert_balanced (number_from 1 (sort_by_account es)) ≡ ok tt
unfolding assert_balanced
assert_balanced-sorted es h =
    assert_balanced-number 1 (sort_by_account es)
      (rw (side_total-sort true es, side_total-sort false es, length-sort es) h)
