-- ===== src/Tests.antt =====
-- Examples: each theorem with parameters or hypotheses, applied to concrete data. Numbers are the
-- naturals there.
mod Filters
mod Ranks
mod Money
mod Work
mod Search
mod Access
mod Uploads
