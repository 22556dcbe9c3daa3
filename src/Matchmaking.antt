-- ===== src/Matchmaking.antt =====
-- packages/matchmaking: the requests, and which two of them may be matched.
pub mod Types
pub mod Compatibility
pub mod Symmetry
pub mod Matched
pub mod Engine
pub mod Best
