-- ===== src/Examples/Records.antt =====
-- The theorems on the egress pool, the ledger and the stores, at concrete inputs.
use debot.Stores.Checkpoints.{CheckpointStore, Checkpoint, Saves, save, save-Saves}
use debot.Base.{if◌then◌else◌, ◌==◌, ℕ, ◌≤◌, String, true, List, [], ◌∷◌, some, All, arith}
use debot.Egress.Pool.{EgressNode, EgressPool, Answer, responded, open_, idle}
use debot.Egress.Failover.{Counts, open-Counts}
use debot.Ledger.Outcomes.{BlockObservation, SimulatedBuy, Peak, peak_of, visible, canonical_path}
use debot.Ledger.Chain.{IsSettled, canonical_path-IsSettled, peak-greatest}

abbrev node : String → ℕ → EgressNode
node id port = record { node_id = id; proxy_host = "proxy"; proxy_port = port }

abbrev pool : EgressPool
pool = record { nodes = idle (node "a" 1) ∷ idle (node "b" 2) ∷ []; max_attempts = 2; cursor = 1 }

-- Node b answers 503, node a answers 200.
abbrev answers : EgressNode → (attempts : ℕ) → Answer
answers n attempts = if n.proxy_port == 2 then responded 503 else responded 200

open-Counts_example : Counts pool.nodes 2 (open_ answers pool).0 (open_ answers pool).1.nodes
open-Counts_example = open-Counts answers pool (omega arith)

abbrev observation : (number : ℕ) (hash parent : String) (at fdv : ℕ) → BlockObservation
observation number hash parent at fdv = record {
  block_number = number;
  block_hash = hash;
  parent_hash = parent;
  observed_at = at;
  fdv_usd = fdv;
  position_value_usd = fdv;
  available_at = at;
  inserted_at = at;
}

abbrev observations : List BlockObservation
observations = observation 7 "h7" "h6" 10 50 ∷ observation 8 "h8" "h7" 20 90 ∷ []

abbrev buy : SimulatedBuy
buy = record {
  buy_id = "buy";
  block_number = 7;
  block_hash = "h7";
  executed_at = 10;
  notional_usd = 20;
  entry_fdv_usd = 50;
  entry_position_value_usd = 20;
}

canonical_path-IsSettled_example :
    IsSettled buy (visible 100 observations) (canonical_path buy (some "h8") observations 100)
canonical_path-IsSettled_example = canonical_path-IsSettled buy (some "h8") observations 100

abbrev entry : Peak
entry = record { fdv = 50; value = 20; at = 10; block = 7 }

peak-greatest_example :
    (50 ≤ (peak_of entry observations).fdv)
    × All (λ o. o.fdv_usd ≤ (peak_of entry observations).fdv) observations
peak-greatest_example = peak-greatest entry observations

abbrev store : CheckpointStore
store = record { items = []; max_accounts = 2 }

abbrev checkpoint : Checkpoint
checkpoint = record { handle = "elonmusk"; user_id = "44196397"; latest_tweet_id = "17" }

save-Saves_example : Saves checkpoint store (save true checkpoint store)
save-Saves_example = save-Saves true checkpoint store (omega arith)
