-- ===== src/Ledger/Schema.antt =====
-- The rows of the ledger's tables (src/debot4/v6/ledger/schema.py, models.py): what a caller records, and
-- the stamp of the transaction that records it. Instants are microseconds, amounts natural numbers in one
-- unit, metadata the text that `canonical_json` gives.
use debot.Base.{ℕ, String, Option}

-- `_CANDIDATE_COLUMNS`
pub record Candidate : Type 0 where
  pub candidate_id : String
  pub chain : String
  pub token_address : String
  pub detected_at : ℕ
  pub available_at : ℕ
  pub source : String
  pub evidence_uri : String
  pub metadata : String

-- `_SIGNAL_COLUMNS`
pub record CurrentSignal : Type 0 where
  pub signal_id : String
  pub candidate_id : String
  pub chain : String
  pub token_address : String
  pub event_at : ℕ
  pub available_at : ℕ
  pub signal_kind : String
  pub source : String
  pub evidence_uri : String
  pub metadata : String

-- `_EVIDENCE_COLUMNS`
pub record HistoricalKolEvidence : Type 0 where
  pub evidence_id : String
  pub chain : String
  pub token_address : String
  pub signal_id : String
  pub event_at : ℕ
  pub available_at : ℕ
  pub qualified_at : ℕ
  pub source : String
  pub evidence_uri : String
  pub metadata : String

-- `_DECISION_COLUMNS`
pub record EntryDecision : Type 0 where
  pub decision_id : String
  pub candidate_id : String
  pub signal_id : String
  pub kol_evidence_id : Option String
  pub decided_at : ℕ
  pub status : String
  pub reason : String
  pub source : String
  pub strategy_version : String
  pub metadata : String

-- `_BUY_COLUMNS`
pub record BuyRow : Type 0 where
  pub buy_id : String
  pub decision_id : String
  pub candidate_id : String
  pub signal_id : String
  pub chain : String
  pub token_address : String
  pub executed_at : ℕ
  pub block_number : ℕ
  pub block_hash : String
  pub entry_fdv_usd : ℕ
  pub notional_usd : ℕ
  pub entry_position_value_usd : ℕ
  pub source : String
  pub evidence_uri : String
  pub metadata : String

-- `_OBSERVATION_COLUMNS`
pub record ObservationRow : Type 0 where
  pub observation_id : String
  pub buy_id : String
  pub block_number : ℕ
  pub block_hash : String
  pub parent_hash : String
  pub observed_at : ℕ
  pub available_at : ℕ
  pub fdv_usd : ℕ
  pub position_value_usd : ℕ
  pub source : String
  pub evidence_uri : String
  pub metadata : String

-- `_HEAD_COLUMNS`
pub record HeadSighting : Type 0 where
  pub sighting_id : String
  pub buy_id : String
  pub block_number : ℕ
  pub block_hash : String
  pub sighted_at : ℕ
  pub available_at : ℕ
  pub source : String
  pub evidence_uri : String
  pub metadata : String

-- `_transaction_commit_seq` and `_transaction_now_us`
pub record Stamp : Type 0 where
  pub commit_seq : ℕ
  pub now : ℕ
