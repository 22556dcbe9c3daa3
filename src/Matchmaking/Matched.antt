-- ===== src/Matchmaking/Matched.antt =====
-- What two compatible requests have in common (packages/matchmaking/src/domain/compatibility.ts).
use arena_core.Prelude.{
  ℕ, ◌≡◌, ◌≢◌, ◌≤◌, ◌<◌, refl, Bool, true, false, ◌&&◌, ◌||◌, List, [], ◌∷◌, arith, ◌==◌,
}
use arena_core.Matchmaking.Types.{MatchmakingRequest, Incompatibility}
use arena_core.Matchmaking.Compatibility.{
  is_searching, is_same_platform, other_language, region_text, other_region, reason_if,
  further_incompatibilities, incompatibilities, compatible_score, result_of, evaluate_compatibility,
}

-- Two requests that may be matched at a time: of different users, searching, not expired, for the same
-- game, mode, rules and group, on the same platform if one of them asks for it, with verified accounts,
-- and without preferences that differ.
pub record IsMatched (left right : MatchmakingRequest) (now : ℕ) : Type 0 where
  pub users : left.user_id ≢ right.user_id
  pub searching : (is_searching left.status ≡ true) × (is_searching right.status ≡ true)
  pub unexpired : (now < left.expires_at) × (now < right.expires_at)
  pub game : left.game_id ≡ right.game_id
  pub mode : left.game_mode_id ≡ right.game_mode_id
  pub rules : left.game_ruleset_id ≡ right.game_ruleset_id
  pub group : left.crossplay_group_id ≡ right.crossplay_group_id
  pub platform :
      (is_same_platform left.search_scope || is_same_platform right.search_scope) ≡ true
      → left.game_platform_id ≡ right.game_platform_id
  pub verified : (left.account_verified && right.account_verified) ≡ true
  pub valid : (left.catalog_valid && right.catalog_valid) ≡ true
  pub language : other_language left.preferences.language right.preferences.language ≡ false
  pub region :
      other_region (region_text left.preferences.region) (region_text right.preferences.region)
      ≡ false

reason_if-none :
    (test : Bool) (reason : Incompatibility) (reasons : List Incompatibility)
    → reason_if test reason reasons ≡ []
    → (test ≡ false) × (reasons ≡ [])
unfolding reason_if
reason_if-none true reason reasons h = cc
reason_if-none false reason reasons h = (refl, h)

result_of-compatible :
    (reasons : List Incompatibility) (score : ℕ)
    → (result_of reasons score).compatible ≡ true
    → (reasons ≡ []) × ((result_of reasons score).score ≡ score)
unfolding result_of
result_of-compatible [] score h = (refl, refl)
result_of-compatible (r ∷ rs) score h = cc

compatible_score-bounded :
    (left right : MatchmakingRequest)
    → (100 ≤ compatible_score left right) × (compatible_score left right ≤ 118)
unfolding compatible_score
compatible_score-bounded left right = (ground arith, ground arith)

none-IsMatched :
    (left right : MatchmakingRequest) (now : ℕ) (active : Bool)
    → incompatibilities left right now active ≡ []
    → IsMatched left right now
unfolding incompatibilities further_incompatibilities
none-IsMatched left right now active h =
    let users = reason_if-none (left.user_id == right.user_id) _ _ h in
    let status = reason_if-none _ _ _ users.1 in
    let time = reason_if-none _ _ _ status.1 in
    let game = reason_if-none _ _ _ time.1 in
    let mode = reason_if-none _ _ _ game.1 in
    let rules = reason_if-none _ _ _ mode.1 in
    let group = reason_if-none _ _ _ rules.1 in
    let platform = reason_if-none _ _ _ group.1 in
    let account = reason_if-none _ _ _ platform.1 in
    let language = reason_if-none _ _ _ account.1 in
    let region = reason_if-none _ _ _ language.1 in
    record {
      users = ground arith;
      searching = (ground arith, ground arith);
      unexpired = (ground arith, ground arith);
      game = ground arith;
      mode = ground arith;
      rules = ground arith;
      group = ground arith;
      platform = λ asked. ground arith;
      verified = ground arith;
      valid = ground arith;
      language = language.0;
      region = region.0;
    }

-- Requests that are found compatible are matched, with a score from 100 to 118.
pub evaluate_compatibility-IsMatched :
    (left right : MatchmakingRequest) (now : ℕ) (active : Bool)
    → (evaluate_compatibility left right now active).compatible ≡ true
    → IsMatched left right now
      × (100 ≤ (evaluate_compatibility left right now active).score)
      × ((evaluate_compatibility left right now active).score ≤ 118)
unfolding evaluate_compatibility
evaluate_compatibility-IsMatched left right now active h =
    let result =
      result_of-compatible (incompatibilities left right now active) (compatible_score left right)
        h in
    let bounds = compatible_score-bounded left right in
    (none-IsMatched left right now active result.0, rw result.1 bounds.0, rw result.1 bounds.1)
