-- ===== src/Market.antt =====
-- Market data: the quote of a Pancake pair, the gates of the strategy, and the selection of anomalies.
pub mod Quote
pub mod Gates
pub mod Passing
pub mod Anomaly
pub mod Selection
pub mod Stages
pub mod Qualifying
pub mod Selected
