-- ===== src/Examples.antt =====
-- The theorems at concrete inputs.
mod Jobs
mod Decisions
mod Records
mod Ledgers
mod Markets
