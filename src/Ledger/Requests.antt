-- ===== src/Ledger/Requests.antt =====
-- A history of the ledger: the calls of its methods (src/debot4/v6/ledger/store.py), one after another.
use debot.Base.{ℕ, String, List, [], ◌∷◌, Option, Result, ok, err}
use debot.Ledger.Schema.{
  Candidate, CurrentSignal, HistoricalKolEvidence, EntryDecision, BuyRow, ObservationRow,
  HeadSighting,
}
use debot.Ledger.Codec.{Python, Metadata}
use debot.Ledger.Settlement.{Window}
use debot.Ledger.Transaction.{Store, close}
use debot.Ledger.Service.{
  record_candidate, record_current_signal, record_candidate_with_signal, record_kol_evidence,
  record_entry_decision, commit_simulated_buy, record_block_observation, record_head_sighting,
  commit_canonical_observation, finalize_one_hour,
}

-- The calls; `clock` and `raw` are the readings of the clock at the call and at its transaction.
pub data Request : Type 0 where
  candidate_call : (clock raw : ℕ) → Candidate → Request
  signal_call : (clock raw : ℕ) → CurrentSignal → Request
  discovery_call : (raw : ℕ) → Candidate → CurrentSignal → Request
  evidence_call : (clock raw : ℕ) → HistoricalKolEvidence → Metadata → Request
  decision_call : (clock raw : ℕ) → EntryDecision → Request
  buy_call : (raw : ℕ) → EntryDecision → BuyRow → (parent : String) → Request
  observation_call : (clock raw : ℕ) → ObservationRow → Request
  head_call : (clock raw : ℕ) → HeadSighting → Request
  canonical_call : (raw : ℕ) → ObservationRow → (sighted available : Option ℕ) → Request
  finalize_call : (clock raw : ℕ) → String → Window → Request
  close_call : Request

-- Whether the call raises, and the ledger that it leaves.
abbrev pub leaves {ℓ} : {A : Type ℓ} → Result A × Store → Result (Unit {0}) × Store
leaves (ok value, store) = (ok tt, store)
leaves (err error, store) = (err error, store)

unfoldable pub answer : Python → Request → Store → Result (Unit {0}) × Store
answer python (candidate_call clock raw given) store =
    leaves (record_candidate python clock raw given store)
answer python (signal_call clock raw given) store =
    leaves (record_current_signal clock raw given store)
answer python (discovery_call raw given signal) store =
    leaves (record_candidate_with_signal python raw given signal store)
answer python (evidence_call clock raw given metadata) store =
    leaves (record_kol_evidence python clock raw given metadata store)
answer python (decision_call clock raw given) store =
    leaves (record_entry_decision python clock raw given store)
answer python (buy_call raw decided bought parent) store =
    leaves (commit_simulated_buy python raw decided bought parent store)
answer python (observation_call clock raw given) store =
    leaves (record_block_observation python clock raw given store)
answer python (head_call clock raw given) store =
    leaves (record_head_sighting python clock raw given store)
answer python (canonical_call raw given sighted available) store =
    leaves (commit_canonical_observation python raw given sighted available store)
answer python (finalize_call clock raw buy_id w) store =
    leaves (finalize_one_hour python clock raw buy_id w store)
answer python close_call store = (ok tt, close store)

-- The ledger after a history.
unfoldable pub run : Python → List Request → Store → Store
unfolding answer
run python [] store = store
run python (request ∷ requests) store = run python requests (answer python request store).1
