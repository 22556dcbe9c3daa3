-- ===== src/Matchmaking/Types.antt =====
-- The data of matchmaking (packages/matchmaking/src/domain/matchmaking-types.ts). Identifiers and
-- times are numbers.
use arena_core.Prelude.{ℕ, Bool, Option, List, Text}

pub data RequestStatus : Type 0 where
  pending searching proposed matched cancelled expired failed : RequestStatus

pub data SearchScope : Type 0 where
  crossplay_group same_platform : SearchScope

pub data Language : Type 0 where
  fa en : Language

-- `MatchmakingCriteria['preferences']`.
pub record Preferences : Type 0 where
  pub language : Option Language
  pub region : Option Text

pub record MatchmakingRequest : Type 0 where
  pub id : ℕ
  pub user_id : ℕ
  pub user_game_account_id : ℕ
  pub game_id : ℕ
  pub game_mode_id : ℕ
  pub game_ruleset_id : ℕ
  pub game_platform_id : ℕ
  pub crossplay_group_id : ℕ
  pub status : RequestStatus
  pub search_scope : SearchScope
  pub preferences : Preferences
  pub priority : ℕ
  pub account_verified : Bool
  pub catalog_valid : Bool
  pub created_at : ℕ
  pub expires_at : ℕ
  pub version : ℕ

pub data Incompatibility : Type 0 where
  same_user request_not_searching request_expired game_mismatch mode_mismatch : Incompatibility
  ruleset_mismatch crossplay_group_mismatch platform_scope_mismatch : Incompatibility
  account_not_verified language_mismatch region_mismatch active_proposal_exists : Incompatibility

pub record CompatibilityResult : Type 0 where
  pub compatible : Bool
  pub reasons : List Incompatibility
  pub score : ℕ
