-- ===== src/Ledger/Checks.antt =====
-- What the ledger's methods check, at the clock's reading `now`, before they open a transaction, and the
-- columns that they make of what they are given (src/debot4/v6/ledger/signals.py, ledger/decisions.py,
-- ledger/trades.py, ledger/heads.py). A column that a method fills in itself is not read.
use debot.Base.{ℕ, ◌&&◌, ◌||◌, not, Result, ok, guard, ◌>>=◌, ◌>>◌, value_error, leb, str_eq}
use debot.Ledger.Schema.{
  Candidate, CurrentSignal, HistoricalKolEvidence, EntryDecision, BuyRow, ObservationRow,
  HeadSighting,
}
use debot.Ledger.Codec.{
  Python, Metadata, clean_text, clean_optional, clean_chain, clean_token, clean_block_hash,
  positive, official_source, ranks_source, evidence_metadata, observation_identity,
  sighting_identity,
}

-- `text(signal_kind, …)`, `text(source, …)` and `text(evidence_uri, …)` in the transaction
unfoldable pub clean_signal : CurrentSignal → Result CurrentSignal
unfolding clean_text
clean_signal given = do
  kind ← clean_text given.signal_kind 128
  source ← clean_text given.source 256
  uri ← clean_text given.evidence_uri 2048
  ok (record given { signal_kind = kind; source = source; evidence_uri = uri })

-- `record_current_signal`, before its transaction
unfoldable pub check_signal : ℕ → CurrentSignal → Result CurrentSignal
unfolding clean_text
check_signal now given = do
  guard (leb given.event_at given.available_at) value_error
  guard (leb given.available_at now) value_error
  identity ← clean_text given.signal_id 128
  candidate_identity ← clean_text given.candidate_id 128
  ok (record given { signal_id = identity; candidate_id = candidate_identity })

module _ (python : Python) where
  open python use {lower, dumps}

  -- `record_candidate`, before `_append`
  unfoldable pub check_candidate : ℕ → Candidate → Result Candidate
  unfolding clean_text clean_chain clean_token
  check_candidate now given = do
    guard (leb given.detected_at given.available_at) value_error
    guard (leb given.available_at now) value_error
    identity ← clean_text given.candidate_id 128
    chain ← clean_chain python given.chain
    token ← clean_token python given.token_address
    source ← clean_text given.source 256
    uri ← clean_text given.evidence_uri 2048
    ok (record given {
      candidate_id = identity;
      chain = chain;
      token_address = token;
      source = source;
      evidence_uri = uri;
    })

  -- `record_kol_evidence`, before `_append`; the metadata is an argument of its own
  unfoldable pub check_evidence :
      ℕ → HistoricalKolEvidence → Metadata → Result HistoricalKolEvidence
  unfolding clean_text clean_chain clean_token evidence_metadata
  check_evidence now given metadata = do
    guard (leb given.event_at given.available_at && leb given.available_at given.qualified_at)
        value_error
    guard (leb given.qualified_at now) value_error
    source ← clean_text given.source 256
    guard (str_eq source official_source || str_eq source ranks_source) value_error
    identity ← clean_text given.evidence_id 128
    chain ← clean_chain python given.chain
    token ← clean_token python given.token_address
    signal_identity ← clean_text given.signal_id 128
    uri ← clean_text given.evidence_uri 2048
    annotated ← evidence_metadata source metadata
    ok (record given {
      evidence_id = identity;
      chain = chain;
      token_address = token;
      signal_id = signal_identity;
      source = source;
      evidence_uri = uri;
      metadata = dumps annotated;
    })

  -- `record_entry_decision`, before its transaction
  unfoldable pub check_decision : ℕ → EntryDecision → Result EntryDecision
  unfolding clean_text clean_optional
  check_decision now given = do
    guard (leb given.decided_at now) value_error
    identity ← clean_text given.decision_id 128
    candidate_identity ← clean_text given.candidate_id 128
    signal_identity ← clean_text given.signal_id 128
    evidence_identity ← clean_optional given.kol_evidence_id 128
    status ← clean_text given.status 64
    reason ← clean_text given.reason 2048
    source ← clean_text given.source 256
    version ← clean_text given.strategy_version 128
    ok (record given {
      decision_id = identity;
      candidate_id = candidate_identity;
      signal_id = signal_identity;
      kol_evidence_id = evidence_identity;
      status = lower status;
      reason = reason;
      source = source;
      strategy_version = version;
    })

  -- `_record_buy`, before it reads the decision and the candidate
  unfoldable pub check_buy : ℕ → BuyRow → Result BuyRow
  unfolding clean_text clean_block_hash
  check_buy now given = do
    guard (leb given.executed_at now) value_error
    identity ← clean_text given.buy_id 128
    decision_identity ← clean_text given.decision_id 128
    candidate_identity ← clean_text given.candidate_id 128
    signal_identity ← clean_text given.signal_id 128
    hash ← clean_block_hash python given.block_hash
    ok (record given {
      buy_id = identity;
      decision_id = decision_identity;
      candidate_id = candidate_identity;
      signal_id = signal_identity;
      block_hash = hash;
    })

  -- `record_block_observation`, before its transaction
  unfoldable pub check_observation : ℕ → ObservationRow → Result ObservationRow
  unfolding clean_text clean_block_hash observation_identity
  check_observation now given = do
    buy_identity ← clean_text given.buy_id 128
    block ← clean_block_hash python given.block_hash
    parent ← clean_block_hash python given.parent_hash
    guard (not (str_eq block parent)) value_error
    guard (leb given.observed_at given.available_at && leb given.available_at now) value_error
    fdv ← positive python given.fdv_usd
    value ← positive python given.position_value_usd
    source ← clean_text given.source 256
    uri ← clean_text given.evidence_uri 2048
    ok (record given {
      observation_id = observation_identity python buy_identity block;
      buy_id = buy_identity;
      block_hash = block;
      parent_hash = parent;
      fdv_usd = fdv;
      position_value_usd = value;
      source = source;
      evidence_uri = uri;
    })

  -- `record_head_sighting`, before its transaction
  unfoldable pub check_head : ℕ → HeadSighting → Result HeadSighting
  unfolding clean_text clean_block_hash sighting_identity
  check_head now given = do
    buy_identity ← clean_text given.buy_id 128
    block ← clean_block_hash python given.block_hash
    guard (leb given.sighted_at given.available_at && leb given.available_at now) value_error
    source ← clean_text given.source 256
    uri ← clean_text given.evidence_uri 2048
    ok (record given {
      sighting_id = sighting_identity python buy_identity block given.sighted_at;
      buy_id = buy_identity;
      block_hash = block;
      source = source;
      evidence_uri = uri;
    })

-- The columns of a BUY that the rest of `_record_buy` checks.
unfoldable pub clean_buy : Python → BuyRow → Result BuyRow
unfolding clean_text
clean_buy python given = do
  fdv ← positive python given.entry_fdv_usd
  notional ← positive python given.notional_usd
  value ← positive python given.entry_position_value_usd
  source ← clean_text given.source 256
  uri ← clean_text given.evidence_uri 2048
  ok (record given {
    entry_fdv_usd = fdv;
    notional_usd = notional;
    entry_position_value_usd = value;
    source = source;
    evidence_uri = uri;
  })
