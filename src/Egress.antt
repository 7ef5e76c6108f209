-- ===== src/Egress.antt =====
-- The egress pool of src/debot4/v6/x/egress.py: round-robin routing with bounded failover.
pub mod Pool
pub mod Failover
