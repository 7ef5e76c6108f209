-- ===== src/Ledger.antt =====
-- The one-hour outcomes of the ledger (src/debot4/v6/ledger/outcomes.py).
pub mod Schema
pub mod Columns
pub mod Codec
pub mod Transaction
pub mod Reads
pub mod Checks
pub mod Recording
pub mod Settlement
pub mod Service
pub mod Requests
pub mod Keeps
pub mod Effects
pub mod Appending
pub mod Growth
pub mod History
pub mod AsOf
pub mod Keys
pub mod Inversion
pub mod Grounded
pub mod Keeping
pub mod Selecting
pub mod Causality
pub mod Grounding
pub mod Due
pub mod Repeating
pub mod WriteOnce
pub mod Transacting
pub mod Sealed
pub mod Outcomes
pub mod Chain
pub mod Finalize
pub mod Settled
