-- ===== src/Stores.antt =====
-- The restart-safe stores of the monitors (src/debot4/v6/narrative/monitor_state.py, market_state.py).
pub mod Checkpoints
