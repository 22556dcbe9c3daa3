-- ===== src/Matches.antt =====
-- packages/matches: the states of a match and of a dispute, and the result of a match.
pub mod Status
pub mod Outcomes
pub mod Courses
pub mod Results
pub mod Candidates
pub mod Accepted
