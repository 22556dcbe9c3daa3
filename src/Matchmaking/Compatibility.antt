-- ===== src/Matchmaking/Compatibility.antt =====
-- Whether two requests may be matched, and how well (packages/matchmaking/src/domain/compatibility.ts).
use arena_core.Prelude.{
  ℕ, ◌+◌, Bool, true, false, not, ◌&&◌, ◌||◌, Option, none, some, List, [], ◌∷◌, Text, text_eq, leb,
  ◌==◌, if◌then◌else◌,
}
use arena_core.Matchmaking.Types.{
  RequestStatus, searching, SearchScope, crossplay_group, same_platform, Language, fa, en,
  MatchmakingRequest, Incompatibility, same_user, request_not_searching, request_expired,
  game_mismatch, mode_mismatch, ruleset_mismatch, crossplay_group_mismatch, platform_scope_mismatch,
  account_not_verified, language_mismatch, region_mismatch, active_proposal_exists,
  CompatibilityResult,
}

unfoldable pub is_searching : RequestStatus → Bool
is_searching searching = true
is_searching _ = false

unfoldable pub is_same_platform : SearchScope → Bool
is_same_platform same_platform = true
is_same_platform crossplay_group = false

-- `a && a === b`, and `a && b && a !== b`.
unfoldable pub same_language : Option Language → Option Language → Bool
same_language (some fa) (some fa) = true
same_language (some en) (some en) = true
same_language _ _ = false

unfoldable pub other_language : Option Language → Option Language → Bool
other_language (some fa) (some en) = true
other_language (some en) (some fa) = true
other_language _ _ = false

-- The region's text: an empty one counts as none.
unfoldable pub region_text : Option Text → Text
region_text none = []
region_text (some region) = region

unfoldable pub same_region : Text → Text → Bool
same_region [] b = false
same_region (c ∷ a) b = text_eq (c ∷ a) b

unfoldable pub other_region : Text → Text → Bool
other_region (c ∷ a) (d ∷ b) = not (text_eq (c ∷ a) (d ∷ b))
other_region _ _ = false

-- `if (test) reasons.push(reason)`, before the reasons that follow.
unfoldable pub reason_if : Bool → Incompatibility → List Incompatibility → List Incompatibility
reason_if true reason reasons = reason ∷ reasons
reason_if false reason reasons = reasons

-- The reasons after the game's, its mode's and its rules'.
unfoldable pub further_incompatibilities :
    MatchmakingRequest → MatchmakingRequest → Bool → List Incompatibility
further_incompatibilities left right active =
    reason_if (not (left.crossplay_group_id == right.crossplay_group_id)) crossplay_group_mismatch (
      reason_if
        ((is_same_platform left.search_scope || is_same_platform right.search_scope)
          && not (left.game_platform_id == right.game_platform_id))
        platform_scope_mismatch
        (reason_if
          ((not left.account_verified || not right.account_verified)
            || (not left.catalog_valid || not right.catalog_valid))
          account_not_verified
          (reason_if (other_language left.preferences.language right.preferences.language)
            language_mismatch
            (reason_if
              (other_region (region_text left.preferences.region)
                (region_text right.preferences.region))
              region_mismatch (reason_if active active_proposal_exists [])))))

unfoldable pub incompatibilities :
    MatchmakingRequest → MatchmakingRequest → ℕ → Bool → List Incompatibility
incompatibilities left right now active = reason_if (left.user_id == right.user_id) same_user (
    reason_if (not (is_searching left.status) || not (is_searching right.status))
      request_not_searching
      (reason_if (leb left.expires_at now || leb right.expires_at now) request_expired (
        reason_if (not (left.game_id == right.game_id)) game_mismatch (
          reason_if (not (left.game_mode_id == right.game_mode_id)) mode_mismatch (
            reason_if (not (left.game_ruleset_id == right.game_ruleset_id)) ruleset_mismatch
              (further_incompatibilities left right active))))))

abbrev pub points : Bool → ℕ → ℕ
points test n = if test then n else 0

unfoldable pub compatible_score : MatchmakingRequest → MatchmakingRequest → ℕ
compatible_score left right =
    let score =
      100
      + points (same_language left.preferences.language right.preferences.language) 10
      + points
          (same_region (region_text left.preferences.region) (region_text right.preferences.region))
          5
      + points (left.game_platform_id == right.game_platform_id) 3 in
    if leb score 118 then score else 118

unfoldable pub result_of : List Incompatibility → ℕ → CompatibilityResult
result_of [] score = record { compatible = true; reasons = []; score = score }
result_of (r ∷ rs) score = record { compatible = false; reasons = r ∷ rs; score = 0 }

unfoldable pub evaluate_compatibility :
    MatchmakingRequest → MatchmakingRequest → ℕ → Bool → CompatibilityResult
evaluate_compatibility left right now active =
    result_of (incompatibilities left right now active) (compatible_score left right)
