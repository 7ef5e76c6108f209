-- ===== src/Ledger/Finalize.antt =====
-- What `finalize_one_hour` inserts, `outcome` and `due_buys` (src/debot4/v6/ledger/outcomes.py), over the
-- rows of the ledger's tables, with the lookup of `buy` (ledger/trades.py). The Decimal operations are
-- those of the parameter `python`.
use debot.Base.{
  ℕ, ◌+◌, String, Bool, true, false, ◌&&◌, not, List, [], ◌∷◌, ◌++◌, Option, none, some, Result, ok,
  err, value_error, runtime_error, guard, ◌>>◌, ◌>>=◌, if◌then◌else◌, leb, length, find?,
  satisfying, any, str_eq,
}
use debot.Ledger.Schema.{Stamp}
use debot.Ledger.Codec.{Python}
use debot.Ledger.Outcomes.{
  BlockObservation, SimulatedBuy, ChainPath, Verdict, OutcomeStatus, judge, hour_us, Peak, peak_of,
  entry_peak,
}

-- What `finalize_one_hour` is given.
pub record Window : Type 0 where
  pub as_of : ℕ
  pub coverage : ℕ
  pub lateness : ℕ
  pub gap : ℕ

-- What `_complete_metrics` returns; the multiples and profits are texts.
pub record Metrics : Type 0 where
  pub peak : Peak
  pub final : Peak
  pub peak_multiple : String
  pub final_multiple : String
  pub peak_pnl : String
  pub final_pnl : String

pub record OneHourResult : Type 0 where
  pub buy_id : String
  pub status : OutcomeStatus
  pub reason : Option String
  pub window_ends_at : ℕ
  pub cutoff_at : ℕ
  pub coverage_complete_through : ℕ
  pub allowed_lateness : ℕ
  pub observation_count : ℕ
  pub max_gap : ℕ
  pub max_allowed_gap : ℕ
  pub metrics : Option Metrics
  pub commit_seq : ℕ
  pub inserted_at : ℕ

pub record StoredBuy : Type 0 where
  pub buy : SimulatedBuy
  pub inserted_at : ℕ

pub record Ledger : Type 0 where
  pub buys : List StoredBuy
  pub results : List OneHourResult

abbrev pub is_of : String → OneHourResult → Bool
is_of buy_id r = str_eq r.buy_id buy_id

-- `buy(buy_id, as_of=…)`
abbrev pub visible_buy : String → ℕ → List StoredBuy → Option StoredBuy
visible_buy buy_id cutoff buys =
    find?
      (λ b. str_eq b.buy.buy_id buy_id && leb b.buy.executed_at cutoff && leb b.inserted_at cutoff)
      buys

-- `observations[-1]`
abbrev pub last_of : List BlockObservation → Option BlockObservation
last_of [] = none
last_of (o ∷ []) = some o
last_of (o ∷ p ∷ os) = last_of (p ∷ os)

abbrev pub is_complete : OutcomeStatus → Bool
is_complete OutcomeStatus.complete = true
is_complete _ = false

abbrev pub point_of : BlockObservation → Peak
point_of o = record {
  fdv = o.fdv_usd;
  value = o.position_value_usd;
  at = o.observed_at;
  block = o.block_number;
}

-- A result that is there is returned as it is.
abbrev pub settle_result :
    Option OneHourResult
    → Ledger
    → Result ((OneHourResult × Bool) × Ledger)
    → Result ((OneHourResult × Bool) × Ledger)
settle_result (some r) ledger rest = ok ((r, false), ledger)
settle_result none ledger rest = rest

-- What `_append` does with the row.
abbrev pub insert_result : Ledger → Result OneHourResult → Result ((OneHourResult × Bool) × Ledger)
insert_result ledger (err error) = err error
insert_result ledger (ok r) = ok ((r, true), record ledger { results = ledger.results ++ r ∷ [] })

module _ (python : Python) where
  open python use {rounded, quotient, difference}

  abbrev pub rounded_point : Peak → Peak
  rounded_point p = record p { fdv = rounded p.fdv; value = rounded p.value }

  -- The metrics, for the observation that is `observations[-1]`.
  unfoldable pub metrics_at :
      (notional : ℕ) (peak : Peak) (last : Option BlockObservation) → Result Metrics
  metrics_at notional peak none = err runtime_error
  metrics_at notional peak (some final) = do
    peak_multiple ← quotient peak.value notional
    final_multiple ← quotient final.position_value_usd notional
    peak_pnl ← difference peak.value notional
    final_pnl ← difference final.position_value_usd notional
    ok (record {
      peak = rounded_point peak;
      final = rounded_point (point_of final);
      peak_multiple = peak_multiple;
      final_multiple = final_multiple;
      peak_pnl = peak_pnl;
      final_pnl = final_pnl;
    })

  -- `_complete_metrics`
  unfoldable pub complete_metrics : SimulatedBuy → List BlockObservation → Result Metrics
  unfolding metrics_at
  complete_metrics buy observations =
      metrics_at buy.notional_usd (peak_of (entry_peak buy) observations) (last_of observations)

  unfoldable pub metrics_of : SimulatedBuy → Verdict → Result (Option Metrics)
  unfolding complete_metrics
  metrics_of buy v =
      if is_complete v.status
      then (complete_metrics buy v.observations >>= λ metrics. ok (some metrics))
      else ok none

  -- The row for a verdict.
  abbrev pub result_of : SimulatedBuy → Window → Stamp → Verdict → Option Metrics → OneHourResult
  result_of buy w stamp v metrics = record {
    buy_id = buy.buy_id;
    status = v.status;
    reason = v.reason;
    window_ends_at = buy.executed_at + hour_us;
    cutoff_at = w.as_of;
    coverage_complete_through = w.coverage;
    allowed_lateness = w.lateness;
    observation_count = length v.observations;
    max_gap = v.gap;
    max_allowed_gap = w.gap;
    metrics = metrics;
    commit_seq = stamp.commit_seq;
    inserted_at = stamp.now;
  }

  abbrev pub verdict_result : SimulatedBuy → Window → Stamp → Option Verdict → Result OneHourResult
  verdict_result buy w stamp none = err runtime_error
  verdict_result buy w stamp (some v) =
      metrics_of buy v >>= λ metrics. ok (result_of buy w stamp v metrics)

  -- The rest of the transaction for a buy that is visible.
  unfoldable pub settle_buy :
      SimulatedBuy → Window → Stamp → ChainPath → Ledger → Result ((OneHourResult × Bool) × Ledger)
  unfolding metrics_of
  settle_buy buy w stamp path ledger = do
    guard (leb (buy.executed_at + hour_us + w.lateness) w.as_of) value_error
    guard (leb (buy.executed_at + hour_us) w.coverage && leb w.coverage w.as_of) value_error
    insert_result ledger (verdict_result buy w stamp (judge buy w.gap path))

  abbrev pub settle_visible :
      Window
      → Stamp
      → (SimulatedBuy → ChainPath)
      → Ledger
      → Option StoredBuy
      → Result ((OneHourResult × Bool) × Ledger)
  settle_visible w stamp path ledger none = err value_error
  settle_visible w stamp path ledger (some b) = settle_buy b.buy w stamp (path b.buy) ledger

-- `outcome(buy_id)`
unfoldable pub outcome : String → Ledger → Option OneHourResult
outcome buy_id ledger = find? (is_of buy_id) ledger.results

-- The buys that `due_buys` selects, in the order of their rows.
unfoldable pub due_buys : (as_of lateness : ℕ) → Ledger → List StoredBuy
due_buys as_of lateness ledger =
    satisfying
      (λ b.
        leb (b.buy.executed_at + hour_us + lateness) as_of
        && leb b.inserted_at as_of
        && not (any (λ r. is_of b.buy.buy_id r && leb r.inserted_at as_of) ledger.results))
      ledger.buys
