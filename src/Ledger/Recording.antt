-- ===== src/Ledger/Recording.antt =====
-- What the ledger's methods do in their transactions (src/debot4/v6/ledger/signals.py, ledger/decisions.py,
-- ledger/trades.py, ledger/heads.py), for the columns that the checks before gave. The references of a row
-- are checked by the database with its insertion (ledger/schema.py).
use debot.Base.{
  ◌+◌, String, Bool, true, false, ◌&&◌, not, Option, none, some, ok, err, value_error,
  ledger_finalized, if◌then◌else◌, leb, find?, any, str_eq,
}
use debot.Ledger.Codec.{Python}
use debot.Ledger.Schema.{
  Candidate, CurrentSignal, HistoricalKolEvidence, EntryDecision, BuyRow, ObservationRow,
  HeadSighting,
}
use debot.Ledger.Columns.{
  candidate_columns, signal_columns, evidence_columns, decision_columns, buy_columns,
  observation_columns, head_columns,
}
use debot.Ledger.Outcomes.{hour_us}
use debot.Ledger.Transaction.{
  Stored, InsertResult, Tables, Tx, ◌>>=◌, ◌>>◌, give, pure, require, select, append, has_key,
}
use debot.Ledger.Reads.{candidate, signal, current_signal, is_eligible, is_finalized, is_block}
use debot.Ledger.Checks.{clean_signal, clean_buy}

-- `_append` in `v6_candidates`
unfoldable pub insert_candidate : Candidate → Tx (InsertResult Candidate)
insert_candidate values stamp tables = elim (append stamp true values tables.candidates) [
  | err error ↦ err error
  | ok (result, rows) ↦ ok (result, record tables { candidates = rows })
]

unfoldable pub insert_signal : CurrentSignal → Tx (InsertResult CurrentSignal)
insert_signal values stamp tables =
    elim (append stamp (any (has_key values.candidate_id) tables.candidates) values
      tables.signals) [
        | err error ↦ err error
        | ok (result, rows) ↦ ok (result, record tables { signals = rows })
      ]

unfoldable pub insert_evidence : HistoricalKolEvidence → Tx (InsertResult HistoricalKolEvidence)
insert_evidence values stamp tables = elim (append stamp true values tables.evidence) [
  | err error ↦ err error
  | ok (result, rows) ↦ ok (result, record tables { evidence = rows })
]

-- the reference to a row of evidence, which may be NULL
abbrev refers : Option String → Tables → Bool
refers none tables = true
refers (some key) tables = any (has_key key) tables.evidence

unfoldable pub insert_decision : EntryDecision → Tx (InsertResult EntryDecision)
insert_decision values stamp tables =
    elim (append stamp
      (any (has_key values.candidate_id) tables.candidates
        && any (has_key values.signal_id) tables.signals
        && refers values.kol_evidence_id tables)
      values tables.decisions) [
        | err error ↦ err error
        | ok (result, rows) ↦ ok (result, record tables { decisions = rows })
      ]

-- `decision_id` is UNIQUE among the buys.
unfoldable pub insert_buy : BuyRow → Tx (InsertResult BuyRow)
insert_buy values stamp tables =
    elim (append stamp
      (any (has_key values.decision_id) tables.decisions
        && any (has_key values.candidate_id) tables.candidates
        && any (has_key values.signal_id) tables.signals
        && not (any (λ row. str_eq row.content.decision_id values.decision_id) tables.buys))
      values tables.buys) [
        | err error ↦ err error
        | ok (result, rows) ↦ ok (result, record tables { buys = rows })
      ]

-- `UNIQUE(buy_id, block_hash)`
abbrev same_block : ObservationRow → Stored ObservationRow → Bool
same_block values row =
    str_eq row.content.buy_id values.buy_id && str_eq row.content.block_hash values.block_hash

unfoldable pub insert_observation : ObservationRow → Tx (InsertResult ObservationRow)
insert_observation values stamp tables =
    elim (append stamp
      (any (has_key values.buy_id) tables.buys
        && not (any (same_block values) tables.observations)
        && not (is_finalized values.buy_id tables))
      values tables.observations) [
        | err error ↦ err error
        | ok (result, rows) ↦ ok (result, record tables { observations = rows })
      ]

-- `UNIQUE(buy_id, block_hash, sighted_at_us)`
abbrev same_sighting : HeadSighting → Stored HeadSighting → Bool
same_sighting values row =
    str_eq row.content.buy_id values.buy_id
    && str_eq row.content.block_hash values.block_hash
    && leb row.content.sighted_at values.sighted_at
    && leb values.sighted_at row.content.sighted_at

unfoldable pub insert_head : HeadSighting → Tx (InsertResult HeadSighting)
insert_head values stamp tables =
    elim (append stamp
      (any (is_block values.buy_id values.block_number values.block_hash) tables.observations
        && not (any (same_sighting values) tables.heads)
        && not (is_finalized values.buy_id tables))
      values tables.heads) [
        | err error ↦ err error
        | ok (result, rows) ↦ ok (result, record tables { heads = rows })
      ]

abbrev pub is_some {ℓ} : {A : Type ℓ} → Option A → Bool
is_some none = false
is_some (some a) = true

-- what `raise ValueError` leaves of an answer that may be missing
abbrev pub the : {A : Type 0} → Option A → Tx A
the none = pure (err value_error)
the (some value) = give value

-- The transaction of `record_current_signal`.
unfoldable pub add_signal : CurrentSignal → Tx (InsertResult CurrentSignal)
unfolding insert_signal
add_signal given = do
  known ← select (λ tables. find? (has_key given.candidate_id) tables.candidates)
  owner ← the known
  clean ← pure (clean_signal given)
  insert_signal
      (record clean { chain = owner.content.chain; token_address = owner.content.token_address })

-- `evidence_identity not in {…}`, for `eligible_historical_kol(current_signal_id=…, as_of=…)`
unfoldable pub require_historical : Option String → EntryDecision → Tx (Unit {0})
require_historical none values = give tt
require_historical (some evidence_id) values = do
  found ← select (signal values.signal_id values.decided_at)
  current ← the found
  newest ← select (current_signal current.content.candidate_id values.decided_at)
  active ← the newest
  require (str_eq active.content.signal_id current.content.signal_id) value_error
  eligible ← select (is_eligible current values.decided_at evidence_id)
  require eligible value_error

-- What `record_entry_decision` requires of a decision that is new.
unfoldable pub require_causal : EntryDecision → Tx (Unit {0})
unfolding require_historical
require_causal values = do
  visible ← select (candidate values.candidate_id values.decided_at)
  require (is_some visible) value_error
  newest ← select (current_signal values.candidate_id values.decided_at)
  current ← the newest
  require (str_eq current.content.signal_id values.signal_id) value_error
  require_historical values.kol_evidence_id values

-- The rest of a transaction for a row that is new; one that was there is returned.
abbrev pub when_inserted : {A : Type 0} → InsertResult A → Tx (Unit {0}) → Tx (InsertResult A)
when_inserted result rest = if result.inserted then rest >> give result else give result

-- The transaction of `record_entry_decision`.
unfoldable pub add_decision : EntryDecision → Tx (InsertResult EntryDecision)
unfolding insert_decision require_causal
add_decision values = do
  result ← insert_decision values
  when_inserted result (require_causal values)

-- What `_record_buy` requires of a buy that is new.
unfoldable pub require_bought : EntryDecision → BuyRow → Tx (Unit {0})
require_bought decision values = do
  require (str_eq decision.status "buy") value_error
  require
      (str_eq decision.candidate_id values.candidate_id
        && str_eq decision.signal_id values.signal_id)
      value_error
  require (leb decision.decided_at values.executed_at) value_error

-- `_record_buy`, from the reading of the decision and the candidate
unfoldable pub add_buy : Python → BuyRow → Tx (InsertResult BuyRow)
unfolding insert_buy require_bought
add_buy python given = do
  found ← select (λ tables. find? (has_key given.decision_id) tables.decisions)
  decision ← the found
  known ← select (λ tables. find? (has_key given.candidate_id) tables.candidates)
  owner ← the known
  clean ← pure (clean_buy python given)
  result ←
      insert_buy
        (record clean { chain = owner.content.chain; token_address = owner.content.token_address })
  when_inserted result (require_bought decision.content clean)

-- What `record_block_observation` requires of an observation that is new.
unfoldable pub require_in_hour : ObservationRow → Tx (Unit {0})
require_in_hour values = do
  found ← select (λ tables. find? (has_key values.buy_id) tables.buys)
  bought ← the found
  require
      (leb bought.content.executed_at values.observed_at
        && leb values.observed_at (bought.content.executed_at + hour_us))
      value_error
  require (leb bought.content.block_number values.block_number) value_error

-- The transaction of `record_block_observation`.
unfoldable pub add_observation : ObservationRow → Tx (InsertResult ObservationRow)
unfolding insert_observation require_in_hour
add_observation values = do
  sealed ← select (λ tables.
      not (any (has_key values.observation_id) tables.observations)
      && is_finalized values.buy_id tables)
  require (not sealed) ledger_finalized
  result ← insert_observation values
  when_inserted result (require_in_hour values)

-- The transaction of `record_head_sighting`.
unfoldable pub add_head : HeadSighting → Tx (InsertResult HeadSighting)
unfolding insert_head
add_head values = do
  sealed ← select (λ tables.
      not (any (has_key values.sighting_id) tables.heads) && is_finalized values.buy_id tables)
  require (not sealed) ledger_finalized
  observed ← select (λ tables.
      any (is_block values.buy_id values.block_number values.block_hash) tables.observations)
  require observed value_error
  insert_head values
