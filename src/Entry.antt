-- ===== src/Entry.antt =====
-- The entry decision (src/debot4/v6/narrative/entry.py, entry_models.py): the exact-block freshness
-- boundary of a quote and the final authorization.
pub mod Models
pub mod Rules
pub mod Authorization
pub mod Fresh
pub mod Commit
