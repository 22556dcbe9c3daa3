-- ===== src/Matchmaking/Symmetry.antt =====
-- The compatibility of two requests does not depend on their order
-- (packages/matchmaking/src/domain/compatibility.ts).
use arena_core.Prelude.{
  ℕ, ◌≡◌, refl, ap, Bool, true, false, not, ◌||◌, Option, none, some, [], ◌∷◌, Text, text_eq, arith,
  leb, ◌==◌,
}
use arena_core.Matchmaking.Types.{Language, fa, en, MatchmakingRequest}
use arena_core.Matchmaking.Compatibility.{
  is_searching, is_same_platform, same_language, other_language, region_text, same_region,
  other_region, further_incompatibilities, incompatibilities, compatible_score,
  evaluate_compatibility,
}

==-symmetric : (a b : ℕ) → (a == b) ≡ (b == a)
==-symmetric a b = ground arith

||-symmetric : (a b : Bool) → (a || b) ≡ (b || a)
||-symmetric true true = refl
||-symmetric true false = refl
||-symmetric false true = refl
||-symmetric false false = refl

text_eq-symmetric : (s t : Text) → text_eq s t ≡ text_eq t s
unfolding text_eq
text_eq-symmetric [] [] = refl
text_eq-symmetric [] (d ∷ t) = refl
text_eq-symmetric (c ∷ s) [] = refl
text_eq-symmetric (c ∷ s) (d ∷ t) = rw (==-symmetric c d, text_eq-symmetric s t) refl

same_language-symmetric : (a b : Option Language) → same_language a b ≡ same_language b a
unfolding same_language
same_language-symmetric none none = refl
same_language-symmetric none (some fa) = refl
same_language-symmetric none (some en) = refl
same_language-symmetric (some fa) none = refl
same_language-symmetric (some en) none = refl
same_language-symmetric (some fa) (some fa) = refl
same_language-symmetric (some fa) (some en) = refl
same_language-symmetric (some en) (some fa) = refl
same_language-symmetric (some en) (some en) = refl

other_language-symmetric : (a b : Option Language) → other_language a b ≡ other_language b a
unfolding other_language
other_language-symmetric none none = refl
other_language-symmetric none (some fa) = refl
other_language-symmetric none (some en) = refl
other_language-symmetric (some fa) none = refl
other_language-symmetric (some en) none = refl
other_language-symmetric (some fa) (some fa) = refl
other_language-symmetric (some fa) (some en) = refl
other_language-symmetric (some en) (some fa) = refl
other_language-symmetric (some en) (some en) = refl

same_region-symmetric : (a b : Text) → same_region a b ≡ same_region b a
unfolding same_region text_eq
same_region-symmetric [] [] = refl
same_region-symmetric [] (d ∷ b) = refl
same_region-symmetric (c ∷ a) [] = refl
same_region-symmetric (c ∷ a) (d ∷ b) = text_eq-symmetric (c ∷ a) (d ∷ b)

other_region-symmetric : (a b : Text) → other_region a b ≡ other_region b a
unfolding other_region
other_region-symmetric [] [] = refl
other_region-symmetric [] (d ∷ b) = refl
other_region-symmetric (c ∷ a) [] = refl
other_region-symmetric (c ∷ a) (d ∷ b) = ap not (text_eq-symmetric (c ∷ a) (d ∷ b))

module _ (left right : MatchmakingRequest) where
  compatible_score-symmetric : compatible_score left right ≡ compatible_score right left
  unfolding compatible_score
  compatible_score-symmetric =
      rw
        (
          same_language-symmetric left.preferences.language right.preferences.language,
          same_region-symmetric (region_text left.preferences.region)
              (region_text right.preferences.region),
          ==-symmetric left.game_platform_id right.game_platform_id,
        )
        refl

  further_incompatibilities-symmetric :
      (active : Bool)
      → further_incompatibilities left right active ≡ further_incompatibilities right left active
  unfolding further_incompatibilities
  further_incompatibilities-symmetric active =
      rw
        (
          ==-symmetric left.crossplay_group_id right.crossplay_group_id,
          ||-symmetric (is_same_platform left.search_scope) (is_same_platform right.search_scope),
          ==-symmetric left.game_platform_id right.game_platform_id,
          ||-symmetric (not left.account_verified) (not right.account_verified),
          ||-symmetric (not left.catalog_valid) (not right.catalog_valid),
          other_language-symmetric left.preferences.language right.preferences.language,
          other_region-symmetric (region_text left.preferences.region)
              (region_text right.preferences.region),
        )
        refl

  incompatibilities-symmetric :
      (now : ℕ) (active : Bool)
      → incompatibilities left right now active ≡ incompatibilities right left now active
  unfolding incompatibilities
  incompatibilities-symmetric now active =
      rw
        (
          ==-symmetric left.user_id right.user_id,
          ||-symmetric (not (is_searching left.status)) (not (is_searching right.status)),
          ||-symmetric (leb left.expires_at now) (leb right.expires_at now),
          ==-symmetric left.game_id right.game_id,
          ==-symmetric left.game_mode_id right.game_mode_id,
          ==-symmetric left.game_ruleset_id right.game_ruleset_id,
          further_incompatibilities-symmetric active,
        )
        refl

-- Two requests are as compatible in one order as in the other: the answer, its reasons in their order,
-- and the score are the same.
pub evaluate_compatibility-symmetric :
    (left right : MatchmakingRequest) (now : ℕ) (active : Bool)
    → evaluate_compatibility left right now active ≡ evaluate_compatibility right left now active
unfolding evaluate_compatibility
evaluate_compatibility-symmetric left right now active =
    rw (incompatibilities-symmetric left right now active, compatible_score-symmetric left right)
      refl
