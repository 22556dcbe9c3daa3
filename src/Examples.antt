-- ===== src/Examples.antt =====
-- Concrete runs, one for each theorem that has hypotheses.
mod Setting
mod Postings
mod Refused
mod Amounts
mod Adjustments
mod Settling
mod Playing
mod Rated
mod Requests
mod Submitted
mod Entered
mod Delivered
mod Paired
