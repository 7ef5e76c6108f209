-- ===== src/Examples/Ledgers.antt =====
-- The theorems on the ledger, at concrete inputs, and a history that is run.
use debot.Base.{some, ℕ, String, Bool, true, false, ◌≡◌, refl, List, [], ◌∷◌, none, arith, ok}
use debot.Ledger.Schema.{Candidate, CurrentSignal, EntryDecision, BuyRow}
use debot.Ledger.Columns.{candidate_columns}
use debot.Ledger.Codec.{
  Python, clean_text, clean_optional, clean_chain, clean_token, clean_block_hash,
  observation_identity, sighting_identity,
}
use debot.Ledger.Checks.{
  check_candidate, check_signal, check_decision, check_buy, check_observation, check_head,
  clean_signal, clean_buy,
}
use debot.Ledger.Recording.{
  insert_candidate, add_signal, add_decision, add_buy, add_observation, add_head, insert_signal,
  insert_decision, insert_buy, insert_observation, insert_head, require_causal, require_historical,
  require_bought, require_in_hour,
}
use debot.Ledger.Finalize.{OneHourResult, settle_buy, outcome}
use debot.Ledger.Outcomes.{incomplete, canonical_path, judge}
use debot.Ledger.Transaction.{Stored, Tables, Store, append, write, close, stamp_of, ◌>>=◌}
use debot.Ledger.Reads.{is_finalized}
use debot.Ledger.Settlement.{Window, buy_view, outcome_view, add_result, path_of, check_window}
use debot.Ledger.Service.{
  finalize_one_hour, record_candidate, record_candidate_with_signal, commit_simulated_buy,
  candidate_with_signal, simulated_buy, canonical_observation,
}
use debot.Ledger.Requests.{
  Request, candidate_call, discovery_call, buy_call, close_call, run, answer,
}
use debot.Queue.Identity.{strip}
use debot.Ledger.Reads
use debot.Ledger.Grounded.{IsLedger}
use debot.Ledger.Grounding.{run-IsLedger}
use debot.Ledger.AsOf.{SameAsOf, run-SameAsOf}
use debot.Ledger.Sealed.{Sealed, run-Sealed}
use debot.Ledger.WriteOnce.{outcome_of, put_once, contents_of, append-put_once}
use debot.Ledger.Transacting.{Transacts, answer-Transacts}
use debot.Ledger.Repeating.{finalize_one_hour-run}
use debot.Ledger.Due.{IsDue, IsDivisible, finalize_one_hour-settles}

abbrev python : Python
python = record {
  lower = λ s. s;
  sha256 = λ s. s;
  decimal = λ n. "1";
  dumps = λ m. "{}";
  rounded = λ n. n;
  quotient = λ n m. ok "1";
  difference = λ n m. ok "0";
}

abbrev token : String
token = "So11111111111111111111111111111111111111112"

abbrev candidate : Candidate
candidate = record {
  candidate_id = "c1";
  chain = "sol";
  token_address = token;
  detected_at = 5;
  available_at = 6;
  source = "debot";
  evidence_uri = "uri";
  metadata = "{}";
}

abbrev signal : CurrentSignal
signal = record {
  signal_id = "s1";
  candidate_id = "c1";
  chain = "";
  token_address = "";
  event_at = 6;
  available_at = 7;
  signal_kind = "kol";
  source = "debot";
  evidence_uri = "uri";
  metadata = "{}";
}

abbrev decision : EntryDecision
decision = record {
  decision_id = "d1";
  candidate_id = "c1";
  signal_id = "s1";
  kol_evidence_id = none;
  decided_at = 15;
  status = "buy";
  reason = "wave";
  source = "debot";
  strategy_version = "v6";
  metadata = "{}";
}

abbrev block : String
block = "0x0123456789012345678901234567890123456789012345678901234567890123"

abbrev parent : String
parent = "0x1123456789012345678901234567890123456789012345678901234567890123"

abbrev bought : BuyRow
bought = record {
  buy_id = "b1";
  decision_id = "";
  candidate_id = "";
  signal_id = "";
  chain = "";
  token_address = "";
  executed_at = 16;
  block_number = 7;
  block_hash = block;
  entry_fdv_usd = 50;
  notional_usd = 20;
  entry_position_value_usd = 20;
  source = "debot";
  evidence_uri = "uri";
  metadata = "{}";
}

abbrev no_tables : Tables
no_tables = record {
  candidates = [];
  signals = [];
  evidence = [];
  decisions = [];
  buys = [];
  observations = [];
  heads = [];
  results = [];
}

abbrev empty : Store
empty = record { tables = no_tables; commits = []; closed = false }

abbrev history : List Request
history = discovery_call 10 candidate signal ∷ buy_call 20 decision bought parent ∷ close_call ∷ []

-- The history records a candidate, a signal, a decision, a buy, its entry block and a head sighting.
history_runs : ◌≡◌ {A = List ℕ} (run python history empty).commits (20 ∷ 10 ∷ [])
unfolding run answer record_candidate_with_signal commit_simulated_buy ◌>>=◌ write close
    candidate_with_signal simulated_buy canonical_observation check_candidate check_signal
    check_decision check_buy check_observation check_head clean_signal clean_buy clean_text
    clean_optional clean_chain clean_token clean_block_hash insert_candidate add_signal add_decision
    add_buy add_observation add_head insert_signal insert_decision insert_buy insert_observation
    insert_head append require_causal require_historical require_bought require_in_hour
    Reads.candidate Reads.current_signal strip observation_identity sighting_identity
history_runs = refl

abbrev empty-IsLedger : IsLedger no_tables
empty-IsLedger = record {
  candidate_keys = tt;
  signal_keys = tt;
  evidence_keys = tt;
  decision_keys = tt;
  buy_keys = tt;
  observation_keys = tt;
  head_keys = tt;
  result_keys = tt;
  signals = tt;
  decisions = tt;
  buys = tt;
  observations = tt;
  heads = tt;
}

run-IsLedger_example : IsLedger (run python history empty).tables
run-IsLedger_example = run-IsLedger python history empty empty-IsLedger

abbrev stored : Stored Candidate
stored = record { content = candidate; commit_seq = 1; inserted_at = 10 }

abbrev started : Store
started = record {
  tables = record no_tables { candidates = stored ∷ [] };
  commits = 10 ∷ [];
  closed = false;
}

run-SameAsOf_example : SameAsOf 9 started.tables (run python history started).tables
run-SameAsOf_example = run-SameAsOf python history started 10 9 refl (omega arith)

append-put_once_example :
    outcome_of (append (record { commit_seq = 2; now = 20 }) true candidate (stored ∷ []))
    ≡ put_once (record { commit_seq = 2; now = 20 }) true candidate (contents_of (stored ∷ []))
append-put_once_example =
    append-put_once (record { commit_seq = 2; now = 20 }) true candidate (stored ∷ [])

answer-Transacts_example :
    Transacts started (answer python (candidate_call 11 12 candidate) started)
answer-Transacts_example = answer-Transacts python (candidate_call 11 12 candidate) started

abbrev buy_row : Stored BuyRow
buy_row = record { content = bought; commit_seq = 1; inserted_at = 20 }

abbrev held : Store
held = record {
  tables = record no_tables { buys = buy_row ∷ [] };
  commits = 20 ∷ [];
  closed = false;
}

abbrev window : Window
window = record {
  as_of = 4_000_000_000;
  coverage = 3_700_000_000;
  lateness = 1_000;
  gap = 300_000_000;
}

cleaned : clean_text "b1" 128 ≡ ok "b1"
unfolding clean_text strip
cleaned = refl

due : IsDue (buy_view buy_row).buy window
due = record { passed = omega arith; covered = omega arith; known = omega arith }

divisible : IsDivisible python 20
divisible = record { quotient = λ amount. ("1", refl); difference = λ amount. ("0", refl) }

finalize_one_hour-settles_example :
    (value : OneHourResult × Bool) × (after : Store) × (finalize_one_hour python 4_000_000_001
        4_000_000_002 "b1" window held
      ≡ (ok value, after))
    × (is_finalized "b1" after.tables ≡ true)
finalize_one_hour-settles_example =
    finalize_one_hour-settles python 4_000_000_001 4_000_000_002 "b1" "b1" window held
      (buy_view buy_row) refl cleaned (omega arith) (omega arith) (omega arith) refl due divisible

abbrev result : OneHourResult
result = record {
  buy_id = "b1";
  status = incomplete;
  reason = some "no_canonical_head";
  window_ends_at = 3_600_000_016;
  cutoff_at = 4_000_000_000;
  coverage_complete_through = 3_700_000_000;
  allowed_lateness = 1_000;
  observation_count = 0;
  max_gap = 3_600_000_000;
  max_allowed_gap = 300_000_000;
  metrics = none;
  commit_seq = 2;
  inserted_at = 4_000_000_002;
}

abbrev sealed : Store
sealed = record {
  tables = record no_tables { buys = buy_row ∷ []; results = result ∷ [] };
  commits = 20 ∷ [];
  closed = false;
}

run-Sealed_example : Sealed "b1" sealed.tables (run python history sealed).tables
run-Sealed_example = run-Sealed python history sealed "b1" refl

abbrev settled : Store
settled = record held {
  tables = record held.tables { results = result ∷ [] };
  commits = 4_000_000_002 ∷ held.commits;
}

settles :
    finalize_one_hour python 4_000_000_001 4_000_000_002 "b1" window held
    ≡ (ok (result, true), settled)
unfolding finalize_one_hour add_result settle_buy path_of canonical_path judge check_window write
    clean_text strip
settles = refl

abbrev later_candidate : List Request
later_candidate = candidate_call 4_000_000_003 4_000_000_004 candidate ∷ []

later-is_open : (run python later_candidate settled).closed ≡ false
unfolding run answer record_candidate check_candidate clean_text clean_optional clean_chain
    clean_token insert_candidate append write strip ◌>>=◌
later-is_open = refl

finalize_one_hour-run_example :
    let later = run python later_candidate settled in
    (outcome "b1" (outcome_view later.tables) ≡ some result)
    × (finalize_one_hour python 4_000_000_009 4_000_000_010 "b1" window later ≡ (
      ok (result, false),
      record later { commits = (stamp_of 4_000_000_010 later.commits).now ∷ later.commits },
    ))
finalize_one_hour-run_example =
    finalize_one_hour-run python 4_000_000_001 4_000_000_002 "b1" "b1" window held result true
      settled later_candidate 4_000_000_009 4_000_000_010 window cleaned settles later-is_open
      (omega arith) (omega arith) (omega arith)
