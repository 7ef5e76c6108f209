-- ===== src/Ledger/Service.antt =====
-- The ledger's methods as their callers see them (src/debot4/v6/ledger/signals.py, ledger/decisions.py,
-- ledger/trades.py, ledger/heads.py, ledger/outcomes.py). `clock` is the reading of the clock at the call
-- and `raw` that at the start of the transaction; a method that runs in another's transaction has the
-- transaction's own time.
use debot.Base.{ℕ, String, Bool, Option, none, some, Result, ok, err}
use debot.Ledger.Schema.{
  Candidate, CurrentSignal, HistoricalKolEvidence, EntryDecision, BuyRow, ObservationRow,
  HeadSighting,
}
use debot.Ledger.Codec.{Python, Metadata}
use debot.Ledger.Settlement.{check_window, Window, add_result}
use debot.Ledger.Finalize.{OneHourResult}
use debot.Ledger.Transaction.{InsertResult, Store, Tx, ◌>>=◌, give, pure, current_time, write}
use debot.Ledger.Checks.{
  check_candidate, check_signal, check_evidence, check_decision, check_buy, check_observation,
  check_head,
}
use debot.Ledger.Recording.{
  insert_candidate, insert_evidence, add_signal, add_decision, add_buy, add_observation, add_head,
}

-- A method that checks what it is given, and then runs a transaction.
abbrev pub transact : {V A : Type 0} → Result V → (V → Tx A) → ℕ → Store → Result A × Store
transact (err error) body raw store = (err error, store)
transact (ok values) body raw store = write raw (body values) store

-- `item or default` for an instant
abbrev or_default : Option ℕ → ℕ → ℕ
or_default none default = default
or_default (some time) default = time

-- What `commit_canonical_observation` says of the head.
abbrev head_of : ObservationRow → Option ℕ → Option ℕ → HeadSighting
head_of given sighted available = record {
  sighting_id = given.observation_id;
  buy_id = given.buy_id;
  block_number = given.block_number;
  block_hash = given.block_hash;
  sighted_at = or_default sighted given.available_at;
  available_at = or_default available given.available_at;
  source = given.source;
  evidence_uri = given.evidence_uri;
  metadata = given.metadata;
}

-- What `commit_simulated_buy` says of the entry block.
abbrev entry_of : BuyRow → String → ObservationRow
entry_of bought parent = record {
  observation_id = bought.buy_id;
  buy_id = bought.buy_id;
  block_number = bought.block_number;
  block_hash = bought.block_hash;
  parent_hash = parent;
  observed_at = bought.executed_at;
  available_at = bought.executed_at;
  fdv_usd = bought.entry_fdv_usd;
  position_value_usd = bought.entry_position_value_usd;
  source = bought.source;
  evidence_uri = bought.evidence_uri;
  metadata = bought.metadata;
}

module _ (python : Python) where
  -- the body of `record_candidate_with_signal`
  unfoldable pub candidate_with_signal :
      Candidate → CurrentSignal → Tx (InsertResult Candidate × InsertResult CurrentSignal)
  candidate_with_signal given signal = do
    now ← current_time
    values ← pure (check_candidate python now given)
    first ← insert_candidate values
    signal_values ← pure (
        check_signal now (record signal {
          candidate_id = given.candidate_id;
          source = given.source;
          evidence_uri = given.evidence_uri;
        }))
    second ← add_signal signal_values
    give (first, second)

  -- the body of `commit_canonical_observation`
  unfoldable pub canonical_observation :
      ObservationRow
      → (sighted available : Option ℕ)
      → Tx (InsertResult ObservationRow × InsertResult HeadSighting)
  canonical_observation given sighted available = do
    now ← current_time
    values ← pure (check_observation python now given)
    observation ← add_observation values
    head_values ← pure (check_head python now (head_of given sighted available))
    head ← add_head head_values
    give (observation, head)

  -- the body of `commit_simulated_buy`
  unfoldable pub simulated_buy :
      EntryDecision
      → BuyRow
      → (parent : String)
      → Tx (
          InsertResult EntryDecision
          × InsertResult BuyRow
          × InsertResult ObservationRow
          × InsertResult HeadSighting)
  unfolding canonical_observation
  simulated_buy decided bought parent = do
    now ← current_time
    values ← pure (check_decision python now (record decided { status = "buy" }))
    decision ← add_decision values
    buy_values ← pure (
        check_buy python now (record bought {
          decision_id = decided.decision_id;
          candidate_id = decided.candidate_id;
          signal_id = decided.signal_id;
        }))
    buy ← add_buy python buy_values
    entry ← canonical_observation (entry_of bought parent) none none
    give (decision, buy, entry.0, entry.1)

  unfoldable pub record_candidate :
      (clock raw : ℕ) → Candidate → Store → Result (InsertResult Candidate) × Store
  record_candidate clock raw given =
      transact (check_candidate python clock given) insert_candidate raw

  unfoldable pub record_candidate_with_signal :
      (raw : ℕ)
      → Candidate
      → CurrentSignal
      → Store
      → Result (InsertResult Candidate × InsertResult CurrentSignal) × Store
  unfolding candidate_with_signal
  record_candidate_with_signal raw given signal = write raw (candidate_with_signal given signal)

  unfoldable pub record_kol_evidence :
      (clock raw : ℕ)
      → HistoricalKolEvidence
      → Metadata
      → Store
      → Result (InsertResult HistoricalKolEvidence) × Store
  record_kol_evidence clock raw given metadata =
      transact (check_evidence python clock given metadata) insert_evidence raw

  unfoldable pub record_entry_decision :
      (clock raw : ℕ) → EntryDecision → Store → Result (InsertResult EntryDecision) × Store
  record_entry_decision clock raw given =
      transact (check_decision python clock given) add_decision raw

  unfoldable pub commit_simulated_buy :
      (raw : ℕ)
      → EntryDecision
      → BuyRow
      → (parent : String) → Store
      → Result (
          InsertResult EntryDecision
          × InsertResult BuyRow
          × InsertResult ObservationRow
          × InsertResult HeadSighting)
        × Store
  unfolding simulated_buy
  commit_simulated_buy raw decided bought parent = write raw (simulated_buy decided bought parent)

  unfoldable pub record_block_observation :
      (clock raw : ℕ) → ObservationRow → Store → Result (InsertResult ObservationRow) × Store
  record_block_observation clock raw given =
      transact (check_observation python clock given) add_observation raw

  unfoldable pub record_head_sighting :
      (clock raw : ℕ) → HeadSighting → Store → Result (InsertResult HeadSighting) × Store
  record_head_sighting clock raw given = transact (check_head python clock given) add_head raw

  unfoldable pub commit_canonical_observation :
      (raw : ℕ)
      → ObservationRow
      → (sighted available : Option ℕ) → Store
      → Result (InsertResult ObservationRow × InsertResult HeadSighting) × Store
  unfolding canonical_observation
  commit_canonical_observation raw given sighted available =
      write raw (canonical_observation given sighted available)

unfoldable pub record_current_signal :
    (clock raw : ℕ) → CurrentSignal → Store → Result (InsertResult CurrentSignal) × Store
record_current_signal clock raw given = transact (check_signal clock given) add_signal raw

unfoldable pub finalize_one_hour :
    Python → (clock raw : ℕ) → String → Window → Store → Result (OneHourResult × Bool) × Store
unfolding check_window
finalize_one_hour python clock raw buy_id w =
    transact (check_window clock buy_id w) (λ identity. add_result python identity w) raw
