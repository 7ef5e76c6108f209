-- ===== src/Ledger/Outcomes.antt =====
-- `_canonical_path`, `_complete_metrics` and the decision of `finalize_one_hour`
-- (src/debot4/v6/ledger/outcomes.py), over the rows that the two SELECT statements return. Amounts are
-- natural numbers in one unit, instants are microseconds; the Decimal quotients are in
-- Finalize.
use debot.Base.{
  ℕ, zero, suc, ◌+◌, ◌-◌, String, Bool, false, ◌&&◌, ◌||◌, not, List, [], ◌∷◌, Option, none, some,
  if◌then◌else◌, ltb, leb, ◌==◌, str_eq, str_mem,
}

pub record BlockObservation : Type 0 where
  pub block_number : ℕ
  pub block_hash : String
  pub parent_hash : String
  pub observed_at : ℕ
  pub fdv_usd : ℕ
  pub position_value_usd : ℕ
  pub available_at : ℕ
  pub inserted_at : ℕ

pub record SimulatedBuy : Type 0 where
  pub buy_id : String
  pub block_number : ℕ
  pub block_hash : String
  pub executed_at : ℕ
  pub notional_usd : ℕ
  pub entry_fdv_usd : ℕ
  pub entry_position_value_usd : ℕ

-- The chain status, its reason and the path.
pub data ChainPath : Type 0 where
  incomplete invalidated : String → ChainPath
  canonical : List BlockObservation → ChainPath
  unfinished : ChainPath

-- `by_hash.get(hash)`; a later row replaces an earlier one with its hash
abbrev pub by_hash : List BlockObservation → String → Option BlockObservation
by_hash [] hash = none
by_hash (o ∷ os) hash =
    let later = by_hash os hash in
    elim later [
      | some found ↦ some found
      | none ↦ if str_eq o.block_hash hash then some o else none
    ]

-- `any(right < left for left, right in zip(times, times[1:]))`
abbrev pub goes_back : ℕ → List BlockObservation → Bool
goes_back before [] = false
goes_back before (o ∷ os) = ltb o.observed_at before || goes_back o.observed_at os

abbrev pub path_goes_back : List BlockObservation → Bool
path_goes_back [] = false
path_goes_back (o ∷ os) = goes_back o.observed_at os

-- The entry block is reached: the path so far has it first.
abbrev pub reach_entry : SimulatedBuy → BlockObservation → List BlockObservation → ChainPath
reach_entry buy current path =
    if not (str_eq current.block_hash buy.block_hash)
    then invalidated "entry_block_reorged"
    else if path_goes_back path
    then invalidated "canonical_chain_invalid"
    else canonical path

-- The step to the parent, where `next` is the rest of the loop.
abbrev pub go_parent :
    BlockObservation → Option BlockObservation → (BlockObservation → ChainPath) → ChainPath
go_parent current none next = incomplete "canonical_chain_incomplete"
go_parent current (some parent) next =
    if not (parent.block_number + 1 == current.block_number)
    then invalidated "canonical_chain_invalid"
    else next parent

-- The loop of `_canonical_path`, on fuel; `path` is `reversed(descending)` and `seen` the hashes passed.
unfoldable pub descend :
    SimulatedBuy
    → List BlockObservation
    → (fuel : ℕ) → List String
    → List BlockObservation
    → BlockObservation
    → ChainPath
descend buy observed zero seen path current = unfinished
descend buy observed (suc fuel) seen path current =
    let next = descend buy observed fuel (current.block_hash ∷ seen) (current ∷ path) in
    if str_mem current.block_hash seen
    then invalidated "canonical_chain_invalid"
    else if ltb current.block_number buy.block_number
    then invalidated "canonical_chain_invalid"
    else if current.block_number == buy.block_number
    then reach_entry buy current (current ∷ path)
    else go_parent current (by_hash observed current.parent_hash) next

-- the rows that are visible at the cutoff
abbrev pub visible : ℕ → List BlockObservation → List BlockObservation
visible cutoff [] = []
visible cutoff (o ∷ os) =
    let rest = visible cutoff os in
    if leb o.available_at cutoff && leb o.inserted_at cutoff then o ∷ rest else rest

abbrev pub start_at : SimulatedBuy → List BlockObservation → Option BlockObservation → ChainPath
start_at buy observed none = incomplete "canonical_chain_incomplete"
start_at buy observed (some head) = descend buy observed (head.block_number + 1) [] [] head

-- `_canonical_path`, from the block hash of the latest head sighting that is visible
unfoldable pub canonical_path : SimulatedBuy → Option String → List BlockObservation → ℕ → ChainPath
unfolding descend
canonical_path buy none observations cutoff = incomplete "no_canonical_head"
canonical_path buy (some head_hash) observations cutoff =
    start_at buy (visible cutoff observations) (by_hash (visible cutoff observations) head_hash)

-- The running peak of `_complete_metrics`.
pub record Peak : Type 0 where
  pub fdv : ℕ
  pub value : ℕ
  pub at : ℕ
  pub block : ℕ

abbrev pub raise_peak : Peak → BlockObservation → Peak
raise_peak peak o =
    if ltb peak.fdv o.fdv_usd
    then record {
      fdv = o.fdv_usd;
      value = o.position_value_usd;
      at = o.observed_at;
      block = o.block_number;
    }
    else peak

unfoldable pub peak_of : Peak → List BlockObservation → Peak
peak_of peak [] = peak
peak_of peak (o ∷ os) = peak_of (raise_peak peak o) os

abbrev pub entry_peak : SimulatedBuy → Peak
entry_peak buy = record {
  fdv = buy.entry_fdv_usd;
  value = buy.entry_position_value_usd;
  at = buy.executed_at;
  block = buy.block_number;
}

-- `max(right - left for left, right in zip(points, points[1:]))`, for points from `left` to `last`
unfoldable pub max_gap : ℕ → List BlockObservation → ℕ → ℕ
max_gap left [] last = last - left
max_gap left (o ∷ os) last =
    let rest = max_gap o.observed_at os last in
    if ltb rest (o.observed_at - left) then o.observed_at - left else rest

pub data OutcomeStatus : Type 0 where
  complete incomplete invalidated : OutcomeStatus

pub record Verdict : Type 0 where
  pub status : OutcomeStatus
  pub reason : Option String
  pub observations : List BlockObservation
  pub gap : ℕ

abbrev pub hour_us : ℕ
hour_us = 3_600_000_000

-- `path[1:]` of a canonical path
abbrev pub after_entry : List BlockObservation → List BlockObservation
after_entry [] = []
after_entry (o ∷ os) = os

abbrev pub grade : List BlockObservation → (gap allowed : ℕ) → Verdict
grade [] gap allowed = record {
  status = OutcomeStatus.incomplete;
  reason = some "no_post_entry_observation";
  observations = [];
  gap = gap;
}
grade (o ∷ os) gap allowed =
    if ltb allowed gap
    then record {
      status = OutcomeStatus.incomplete;
      reason = some "coverage_gap_exceeded";
      observations = o ∷ os;
      gap = gap;
    }
    else record { status = complete; reason = none; observations = o ∷ os; gap = gap }

-- The status of `finalize_one_hour`, from the chain's.
unfoldable pub judge : SimulatedBuy → (allowed : ℕ) → ChainPath → Option Verdict
unfolding max_gap
judge buy allowed unfinished = none
judge buy allowed (ChainPath.incomplete reason) = some (record {
  status = OutcomeStatus.incomplete;
  reason = some reason;
  observations = [];
  gap = max_gap buy.executed_at [] (buy.executed_at + hour_us);
})
judge buy allowed (ChainPath.invalidated reason) = some (record {
  status = OutcomeStatus.invalidated;
  reason = some reason;
  observations = [];
  gap = max_gap buy.executed_at [] (buy.executed_at + hour_us);
})
judge buy allowed (canonical path) = some (
    grade (after_entry path)
      (max_gap buy.executed_at (after_entry path) (buy.executed_at + hour_us)) allowed)
