-- ===== src/Ledger/Reads.antt =====
-- The queries of the ledger's tables (src/debot4/v6/ledger/signals.py, ledger/decisions.py,
-- ledger/trades.py, ledger/heads.py, ledger/queries.py). A query `as_of` a cutoff sees the rows that were
-- available and inserted by then.
use debot.Base.{
  ℕ, String, Bool, ◌&&◌, ◌||◌, not, List, [], ◌∷◌, Option, none, some, if◌then◌else◌, leb, ltb,
  ◌==◌, find?, any, str_eq, str_ltb,
}
use debot.Ledger.Schema.{Candidate, CurrentSignal, HistoricalKolEvidence, ObservationRow}
use debot.Ledger.Columns.{
  candidate_columns, signal_columns, evidence_columns, decision_columns, buy_columns,
}
use debot.Ledger.Codec.{official_source, ranks_source}
use debot.Ledger.Transaction.{Stored, Tables, has_key}
use debot.Ledger.Finalize.{is_of}

-- `candidate(candidate_id, as_of=…)`
unfoldable pub candidate : String → ℕ → Tables → Option (Stored Candidate)
candidate key cutoff tables =
    find?
      (λ row.
        has_key key row && (leb row.content.available_at cutoff && leb row.inserted_at cutoff))
      tables.candidates

-- `signal(signal_id, as_of=…)`
unfoldable pub signal : String → ℕ → Tables → Option (Stored CurrentSignal)
signal key cutoff tables =
    find?
      (λ row.
        has_key key row && (leb row.content.available_at cutoff && leb row.inserted_at cutoff))
      tables.signals

-- `ORDER BY event_at_us DESC, available_at_us DESC, inserted_at_us DESC, signal_id DESC`
unfoldable pub comes_before : Stored CurrentSignal → Stored CurrentSignal → Bool
comes_before a b =
    ltb b.content.event_at a.content.event_at
    || (b.content.event_at == a.content.event_at
        && (ltb b.content.available_at a.content.available_at
            || (b.content.available_at == a.content.available_at
                && (ltb b.inserted_at a.inserted_at
                    || (b.inserted_at == a.inserted_at
                        && str_ltb b.content.signal_id a.content.signal_id)))))

-- `ORDER BY … LIMIT 1` of the rows that pass
abbrev pub latest :
    (Stored CurrentSignal → Bool) → List (Stored CurrentSignal) → Option (Stored CurrentSignal)
latest test [] = none
latest test (row ∷ rows) =
    let rest = latest test rows in
    if test row
    then elim rest [
      | none ↦ some row
      | some other ↦ if comes_before other row then some other else some row
    ]
    else rest

abbrev pub is_visible : String → ℕ → Stored CurrentSignal → Bool
is_visible candidate_id cutoff row =
    str_eq row.content.candidate_id candidate_id
    && (leb row.content.available_at cutoff && leb row.inserted_at cutoff)

-- `current_signal(candidate_id, as_of=…)`
unfoldable pub current_signal : String → ℕ → Tables → Option (Stored CurrentSignal)
current_signal candidate_id cutoff tables = latest (is_visible candidate_id cutoff) tables.signals

-- `SELECT 1 FROM v6_one_hour_results WHERE buy_id = ?`
abbrev pub is_finalized : String → Tables → Bool
is_finalized buy_id tables = any (is_of buy_id) tables.results

-- The WHERE clause of `eligible_historical_kol`, for the signal that is current; without a lower bound.
abbrev pub is_historical : Stored CurrentSignal → (cutoff : ℕ) → Stored HistoricalKolEvidence → Bool
is_historical current cutoff row =
    str_eq row.content.chain current.content.chain
    && str_eq row.content.token_address current.content.token_address
    && (str_eq row.content.source official_source || str_eq row.content.source ranks_source)
    && not (str_eq row.content.signal_id current.content.signal_id)
    && ltb row.content.event_at current.content.event_at
    && ltb row.content.available_at current.content.available_at
    && ltb row.content.qualified_at current.content.available_at
    && ltb row.commit_seq current.commit_seq
    && leb row.content.available_at cutoff
    && leb row.content.qualified_at cutoff
    && leb row.inserted_at cutoff

-- `evidence_identity not in {item.evidence_id for item in eligible}`, negated
unfoldable pub is_eligible : Stored CurrentSignal → (cutoff : ℕ) → String → Tables → Bool
is_eligible current cutoff evidence_id tables =
    any (λ row. is_historical current cutoff row && has_key evidence_id row) tables.evidence

-- `SELECT 1 FROM v6_block_observations WHERE buy_id = ? AND block_number = ? AND block_hash = ?`
abbrev pub is_block : String → ℕ → String → Stored ObservationRow → Bool
is_block buy_id number hash row =
    str_eq row.content.buy_id buy_id
    && row.content.block_number == number
    && str_eq row.content.block_hash hash
