-- ===== src/Gate.antt =====
-- The live narrative gate (src/debot4/v6/narrative/gate.py) and what it rests on: the dossier, its
-- readiness and the current wave.
pub mod Domain
pub mod Dossier
pub mod Readiness
pub mod Wave
pub mod Rules
pub mod FreshWave
pub mod Confirmed
pub mod Bound
pub mod Passing
pub mod Evidence
