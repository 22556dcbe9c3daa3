-- ===== src/Rating.antt =====
-- packages/rating: the rating policy and the Elo calculation.
pub mod Policy
pub mod Elo
