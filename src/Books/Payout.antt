-- ===== src/Books/Payout.antt =====
-- What `postSettlement`
-- (packages/match-finance/src/infrastructure/prisma-match-settlement-ledger-adapter.ts) pays out:
-- the whole escrow to the winner, or each participant's own amount.
use arena_core.Prelude.{
  ℕ, ◌≡◌, refl, sym, true, false, Option, some, none, List, [], ◌∷◌, arith, ◌==◌, Bool-cases, inl,
  inr, All, opt_eq, contains, distinct, ◌∙◌,
}
use arena_core.Prelude.Int.{ℤ, pos, ◌≤ℤ◌, int_laws}
use arena_core.Finance.Types.{SettlementReservation, SettlementType, is_winner_takes_all}
use arena_core.Finance.Adapter.{recipients, total_amount, is_empty}
use arena_core.Books.Settlement.{paid, NonNegative}

abbrev pub participant_ids : List SettlementReservation → List ℕ
participant_ids [] = []
participant_ids (r ∷ rs) = r.participant_id ∷ participant_ids rs

module _ (type : SettlementType) (total : ℤ) where
  nobody_wins :
      (rs : List SettlementReservation)
      → is_winner_takes_all type ≡ true
      → recipients type none total rs ≡ []
  unfolding recipients
  nobody_wins [] wta = refl
  nobody_wins (r ∷ rs) wta = rw (wta, nobody_wins rs wta) refl

  winner_absent :
      (w : ℕ) (rs : List SettlementReservation)
      → is_winner_takes_all type ≡ true
      → contains (participant_ids rs) w ≡ false
      → recipients type (some w) total rs ≡ []
  unfolding recipients
  winner_absent w [] wta gone = refl
  winner_absent w (r ∷ rs) wta gone = ground (arith, winner_absent w rs)

  paid_winner :
      (w : ℕ) (rs : List SettlementReservation)
      → is_winner_takes_all type ≡ true
      → distinct (participant_ids rs) ≡ true
      → is_empty (recipients type (some w) total rs) ≡ false
      → paid (recipients type (some w) total rs) ≡ total
  unfolding recipients
  paid_winner w [] wta d some_paid = cc
  paid_winner w (r ∷ rs) wta d some_paid = elim (Bool-cases (r.participant_id == w)) [
    | inl wins ↦
        let e : r.participant_id ≡ w = ground arith in
        rw (wta, wins, winner_absent w rs wta (ground arith)) (omega int_laws)
    | inr other ↦
        rw (wta, other) (paid_winner w rs wta (ground arith) (rw (wta, other) at some_paid))
  ]

  paid_back :
      (w : Option ℕ) (rs : List SettlementReservation)
      → is_winner_takes_all type ≡ false
      → paid (recipients type w total rs) ≡ total_amount rs
  unfolding recipients total_amount
  paid_back w [] wta = refl
  paid_back w (r ∷ rs) wta = rw (wta, paid_back w rs wta) refl

  pub paid-recipients :
      (w : Option ℕ) (rs : List SettlementReservation)
      → distinct (participant_ids rs) ≡ true
      → total ≡ total_amount rs
      → is_empty (recipients type w total rs) ≡ false
      → paid (recipients type w total rs) ≡ total
  paid-recipients none rs d t some_paid = elim (Bool-cases (is_winner_takes_all type)) [
    | inl wta ↦ absurd (ground (arith, nobody_wins rs wta))
    | inr back ↦ paid_back none rs back ∙ sym t
  ]
  paid-recipients (some w) rs d t some_paid = elim (Bool-cases (is_winner_takes_all type)) [
    | inl wta ↦ paid_winner w rs wta d some_paid
    | inr back ↦ paid_back (some w) rs back ∙ sym t
  ]

  pub recipients-NonNegative :
      (w : Option ℕ) (rs : List SettlementReservation)
      → pos 0 ≤ℤ total
      → All (λ r. pos 0 ≤ℤ r.amount) rs
      → All NonNegative (recipients type w total rs)
  unfolding recipients
  recipients-NonNegative w [] t nonneg = tt
  recipients-NonNegative w (r ∷ rs) t (p, nonneg) =
      let k = recipients-NonNegative w rs t nonneg in
      elim (Bool-cases (is_winner_takes_all type)) [
        | inl wta ↦ elim (Bool-cases (opt_eq (some r.participant_id) w)) [
          | inl wins ↦ rw (wta, wins) (t, k)
          | inr other ↦ rw (wta, other) k
        ]
        | inr back ↦ rw back (p, k)
      ]
