-- ===== src/Ledger/Columns.antt =====
-- The columns of the ledger's tables: their primary keys, and the comparison `actual != tuple(values)` of
-- `_append` (src/debot4/v6/ledger/database.py), which is that of the records.
use debot.Base.{
  String, ◌≡◌, ◌↔◌, Bool, true, false, ◌&&◌, ◌==◌, Option, none, some, str_eq, eq_iff, arith,
}
use debot.Ledger.Schema.{
  Candidate, CurrentSignal, HistoricalKolEvidence, EntryDecision, BuyRow, ObservationRow,
  HeadSighting,
}

-- The key column, and the comparison of two tuples of values.
pub record Columns (A : Type 0) : Type 0 where
  pub key : A → String
  pub same : A → A → Bool
  pub same_iff : (a b : A) → (same a b ≡ true) ↔ (a ≡ b)

abbrev optional_eq : Option String → Option String → Bool
optional_eq none none = true
optional_eq (some s) (some t) = str_eq s t
optional_eq _ _ = false

optional_eq_iff : (a b : Option String) → (optional_eq a b ≡ true) ↔ (a ≡ b)
optional_eq_iff none none = ground arith
optional_eq_iff none (some t) = ground arith
optional_eq_iff (some s) none = ground arith
optional_eq_iff (some s) (some t) = ground (arith, eq_iff s t)

abbrev candidate_eq : Candidate → Candidate → Bool
candidate_eq a b =
    str_eq a.candidate_id b.candidate_id
    && str_eq a.chain b.chain
    && str_eq a.token_address b.token_address
    && a.detected_at == b.detected_at
    && a.available_at == b.available_at
    && str_eq a.source b.source
    && str_eq a.evidence_uri b.evidence_uri
    && str_eq a.metadata b.metadata

pub candidate_eq_iff : (a b : Candidate) → (candidate_eq a b ≡ true) ↔ (a ≡ b)
candidate_eq_iff a b = ground (
  arith,
  eq_iff a.candidate_id b.candidate_id,
  eq_iff a.chain b.chain,
  eq_iff a.token_address b.token_address,
  eq_iff a.source b.source,
  eq_iff a.evidence_uri b.evidence_uri,
  eq_iff a.metadata b.metadata,
)

instance abbrev pub candidate_columns : Columns Candidate
candidate_columns = record {
  key = λ a. a.candidate_id;
  same = candidate_eq;
  same_iff = candidate_eq_iff;
}

abbrev signal_eq : CurrentSignal → CurrentSignal → Bool
signal_eq a b =
    str_eq a.signal_id b.signal_id
    && str_eq a.candidate_id b.candidate_id
    && str_eq a.chain b.chain
    && str_eq a.token_address b.token_address
    && a.event_at == b.event_at
    && a.available_at == b.available_at
    && str_eq a.signal_kind b.signal_kind
    && str_eq a.source b.source
    && str_eq a.evidence_uri b.evidence_uri
    && str_eq a.metadata b.metadata

pub signal_eq_iff : (a b : CurrentSignal) → (signal_eq a b ≡ true) ↔ (a ≡ b)
signal_eq_iff a b = ground (
  arith,
  eq_iff a.signal_id b.signal_id,
  eq_iff a.candidate_id b.candidate_id,
  eq_iff a.chain b.chain,
  eq_iff a.token_address b.token_address,
  eq_iff a.signal_kind b.signal_kind,
  eq_iff a.source b.source,
  eq_iff a.evidence_uri b.evidence_uri,
  eq_iff a.metadata b.metadata,
)

instance abbrev pub signal_columns : Columns CurrentSignal
signal_columns = record { key = λ a. a.signal_id; same = signal_eq; same_iff = signal_eq_iff }

abbrev evidence_eq : HistoricalKolEvidence → HistoricalKolEvidence → Bool
evidence_eq a b =
    str_eq a.evidence_id b.evidence_id
    && str_eq a.chain b.chain
    && str_eq a.token_address b.token_address
    && str_eq a.signal_id b.signal_id
    && a.event_at == b.event_at
    && a.available_at == b.available_at
    && a.qualified_at == b.qualified_at
    && str_eq a.source b.source
    && str_eq a.evidence_uri b.evidence_uri
    && str_eq a.metadata b.metadata

pub evidence_eq_iff : (a b : HistoricalKolEvidence) → (evidence_eq a b ≡ true) ↔ (a ≡ b)
evidence_eq_iff a b = ground (
  arith,
  eq_iff a.evidence_id b.evidence_id,
  eq_iff a.chain b.chain,
  eq_iff a.token_address b.token_address,
  eq_iff a.signal_id b.signal_id,
  eq_iff a.source b.source,
  eq_iff a.evidence_uri b.evidence_uri,
  eq_iff a.metadata b.metadata,
)

instance abbrev pub evidence_columns : Columns HistoricalKolEvidence
evidence_columns = record {
  key = λ a. a.evidence_id;
  same = evidence_eq;
  same_iff = evidence_eq_iff;
}

abbrev decision_eq : EntryDecision → EntryDecision → Bool
decision_eq a b =
    str_eq a.decision_id b.decision_id
    && str_eq a.candidate_id b.candidate_id
    && str_eq a.signal_id b.signal_id
    && optional_eq a.kol_evidence_id b.kol_evidence_id
    && a.decided_at == b.decided_at
    && str_eq a.status b.status
    && str_eq a.reason b.reason
    && str_eq a.source b.source
    && str_eq a.strategy_version b.strategy_version
    && str_eq a.metadata b.metadata

pub decision_eq_iff : (a b : EntryDecision) → (decision_eq a b ≡ true) ↔ (a ≡ b)
decision_eq_iff a b = ground (
  arith,
  eq_iff a.decision_id b.decision_id,
  eq_iff a.candidate_id b.candidate_id,
  eq_iff a.signal_id b.signal_id,
  optional_eq_iff a.kol_evidence_id b.kol_evidence_id,
  eq_iff a.status b.status,
  eq_iff a.reason b.reason,
  eq_iff a.source b.source,
  eq_iff a.strategy_version b.strategy_version,
  eq_iff a.metadata b.metadata,
)

instance abbrev pub decision_columns : Columns EntryDecision
decision_columns = record {
  key = λ a. a.decision_id;
  same = decision_eq;
  same_iff = decision_eq_iff;
}

abbrev buy_eq : BuyRow → BuyRow → Bool
buy_eq a b =
    str_eq a.buy_id b.buy_id
    && str_eq a.decision_id b.decision_id
    && str_eq a.candidate_id b.candidate_id
    && str_eq a.signal_id b.signal_id
    && str_eq a.chain b.chain
    && str_eq a.token_address b.token_address
    && a.executed_at == b.executed_at
    && a.block_number == b.block_number
    && str_eq a.block_hash b.block_hash
    && a.entry_fdv_usd == b.entry_fdv_usd
    && a.notional_usd == b.notional_usd
    && a.entry_position_value_usd == b.entry_position_value_usd
    && str_eq a.source b.source
    && str_eq a.evidence_uri b.evidence_uri
    && str_eq a.metadata b.metadata

pub buy_eq_iff : (a b : BuyRow) → (buy_eq a b ≡ true) ↔ (a ≡ b)
buy_eq_iff a b = ground (
  arith,
  eq_iff a.buy_id b.buy_id,
  eq_iff a.decision_id b.decision_id,
  eq_iff a.candidate_id b.candidate_id,
  eq_iff a.signal_id b.signal_id,
  eq_iff a.chain b.chain,
  eq_iff a.token_address b.token_address,
  eq_iff a.block_hash b.block_hash,
  eq_iff a.source b.source,
  eq_iff a.evidence_uri b.evidence_uri,
  eq_iff a.metadata b.metadata,
)

instance abbrev pub buy_columns : Columns BuyRow
buy_columns = record { key = λ a. a.buy_id; same = buy_eq; same_iff = buy_eq_iff }

abbrev observation_eq : ObservationRow → ObservationRow → Bool
observation_eq a b =
    str_eq a.observation_id b.observation_id
    && str_eq a.buy_id b.buy_id
    && a.block_number == b.block_number
    && str_eq a.block_hash b.block_hash
    && str_eq a.parent_hash b.parent_hash
    && a.observed_at == b.observed_at
    && a.available_at == b.available_at
    && a.fdv_usd == b.fdv_usd
    && a.position_value_usd == b.position_value_usd
    && str_eq a.source b.source
    && str_eq a.evidence_uri b.evidence_uri
    && str_eq a.metadata b.metadata

pub observation_eq_iff : (a b : ObservationRow) → (observation_eq a b ≡ true) ↔ (a ≡ b)
observation_eq_iff a b = ground (
  arith,
  eq_iff a.observation_id b.observation_id,
  eq_iff a.buy_id b.buy_id,
  eq_iff a.block_hash b.block_hash,
  eq_iff a.parent_hash b.parent_hash,
  eq_iff a.source b.source,
  eq_iff a.evidence_uri b.evidence_uri,
  eq_iff a.metadata b.metadata,
)

instance abbrev pub observation_columns : Columns ObservationRow
observation_columns = record {
  key = λ a. a.observation_id;
  same = observation_eq;
  same_iff = observation_eq_iff;
}

abbrev head_eq : HeadSighting → HeadSighting → Bool
head_eq a b =
    str_eq a.sighting_id b.sighting_id
    && str_eq a.buy_id b.buy_id
    && a.block_number == b.block_number
    && str_eq a.block_hash b.block_hash
    && a.sighted_at == b.sighted_at
    && a.available_at == b.available_at
    && str_eq a.source b.source
    && str_eq a.evidence_uri b.evidence_uri
    && str_eq a.metadata b.metadata

pub head_eq_iff : (a b : HeadSighting) → (head_eq a b ≡ true) ↔ (a ≡ b)
head_eq_iff a b = ground (
  arith,
  eq_iff a.sighting_id b.sighting_id,
  eq_iff a.buy_id b.buy_id,
  eq_iff a.block_hash b.block_hash,
  eq_iff a.source b.source,
  eq_iff a.evidence_uri b.evidence_uri,
  eq_iff a.metadata b.metadata,
)

instance abbrev pub head_columns : Columns HeadSighting
head_columns = record { key = λ a. a.sighting_id; same = head_eq; same_iff = head_eq_iff }
