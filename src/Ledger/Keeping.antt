-- ===== src/Ledger/Keeping.antt =====
-- An insertion into a table of the ledger keeps its invariant, if the row that it adds is grounded.
use debot.Base.{Bool, true, ◌≡◌, refl, List, [], ◌∷◌, ◌++◌, ok}
use debot.Ledger.Settled.{IsCommitted, ResultKeys}
use debot.Ledger.Schema.{
  Candidate, CurrentSignal, HistoricalKolEvidence, EntryDecision, BuyRow, ObservationRow,
  HeadSighting,
}
use debot.Ledger.Columns.{
  Columns, candidate_columns, signal_columns, evidence_columns, decision_columns, buy_columns,
  observation_columns, head_columns,
}
use debot.Ledger.Transaction.{Stored, InsertResult, Tables, Stamp, append, new_stored}
use debot.Ledger.Finalize.{OneHourResult}
use debot.Ledger.Appending.{
  Extends, Appended, found, placed, append-Appended, append-Extends, All-weaken,
}
use debot.Ledger.Keys.{append-AreKeyed}
use debot.Ledger.Growth.{
  Grows, candidates-Grows, signals-Grows, evidence-Grows, decisions-Grows, buys-Grows,
  observations-Grows, heads-Grows, results-Grows,
}
use debot.Ledger.Grounded.{
  HasCandidate, IsCausal, IsBought, IsInHour, IsOnBlock, AllRows, IsLedger, HasCandidate-Grows,
  IsCausal-Grows, IsBought-Grows, IsInHour-Grows, IsOnBlock-Grows,
}

module _ {A : Type 0} ⦃columns : Columns A⦄ (P Q : A → Type 0) (imply : (a : A) → P a → Q a) where
  AllRows-weaken : (rows : List (Stored A)) → AllRows P rows → AllRows Q rows
  AllRows-weaken rows h =
      All-weaken (λ row. P row.content) (λ row. Q row.content) (λ row. imply row.content) rows h

  AllRows-new :
      (rows : List (Stored A)) (row : Stored A)
      → AllRows P rows
      → Q row.content
      → AllRows Q (rows ++ row ∷ [])
  AllRows-new [] row h q = (q, tt)
  AllRows-new (x ∷ xs) row h q = (imply x.content h.0, AllRows-new xs row h.1 q)

  append-AllRows :
      (stamp : Stamp) (constraints : Bool) (values : A) (rows : List (Stored A))
      (result : InsertResult A) (after : List (Stored A))
      → append stamp constraints values rows ≡ ok (result, after)
      → AllRows P rows
      → (result.inserted ≡ true → Q values)
      → AllRows Q after
  append-AllRows stamp constraints values rows result after h all q =
      grown (append-Appended stamp constraints values rows result after h)
    where
      grown : Appended stamp constraints values rows result after → AllRows Q after
      grown (found row e c r a) = rw a (AllRows-weaken rows all)
      grown (placed e c r a) = rw a (AllRows-new rows (new_stored stamp values) all (q (rw r refl)))

module _ (stamp : Stamp) (t : Tables) (constraints : Bool) where
  pub insert_candidate-IsLedger :
      (values : Candidate) (result : InsertResult Candidate) (rows : List (Stored Candidate))
      → append stamp constraints values t.candidates ≡ ok (result, rows)
      → IsLedger t
      → IsLedger (record t { candidates = rows })
  insert_candidate-IsLedger values result rows h i =
      let after : Tables = record t { candidates = rows } in
      let g : Grows stamp t after =
        candidates-Grows stamp t rows
          (append-Extends stamp constraints values t.candidates result rows h) in
      record {
        result_keys = i.result_keys;
        candidate_keys =
            append-AreKeyed stamp constraints values t.candidates result rows h i.candidate_keys;
        signal_keys = i.signal_keys;
        evidence_keys = i.evidence_keys;
        decision_keys = i.decision_keys;
        buy_keys = i.buy_keys;
        observation_keys = i.observation_keys;
        head_keys = i.head_keys;
        signals =
            AllRows-weaken (HasCandidate t) (HasCandidate after)
              (HasCandidate-Grows stamp t after g) t.signals i.signals;
        decisions =
            AllRows-weaken (IsCausal t) (IsCausal after) (IsCausal-Grows stamp t after g)
              t.decisions i.decisions;
        buys =
            AllRows-weaken (IsBought t) (IsBought after) (IsBought-Grows stamp t after g) t.buys
              i.buys;
        observations =
            AllRows-weaken (IsInHour t) (IsInHour after) (IsInHour-Grows stamp t after g)
              t.observations i.observations;
        heads =
            AllRows-weaken (IsOnBlock t) (IsOnBlock after) (IsOnBlock-Grows stamp t after g) t.heads
              i.heads;
      }

  pub insert_signal-IsLedger :
      (values : CurrentSignal) (result : InsertResult CurrentSignal)
      (rows : List (Stored CurrentSignal))
      → append stamp constraints values t.signals ≡ ok (result, rows)
      → IsLedger t
      → (result.inserted ≡ true → HasCandidate (record t { signals = rows }) values)
      → IsLedger (record t { signals = rows })
  insert_signal-IsLedger values result rows h i q =
      let after : Tables = record t { signals = rows } in
      let g : Grows stamp t after =
        signals-Grows stamp t rows
          (append-Extends stamp constraints values t.signals result rows h) in
      record {
        result_keys = i.result_keys;
        candidate_keys = i.candidate_keys;
        signal_keys =
            append-AreKeyed stamp constraints values t.signals result rows h i.signal_keys;
        evidence_keys = i.evidence_keys;
        decision_keys = i.decision_keys;
        buy_keys = i.buy_keys;
        observation_keys = i.observation_keys;
        head_keys = i.head_keys;
        signals =
            append-AllRows (HasCandidate t) (HasCandidate after)
              (HasCandidate-Grows stamp t after g) stamp constraints values t.signals result rows h
              i.signals q;
        decisions =
            AllRows-weaken (IsCausal t) (IsCausal after) (IsCausal-Grows stamp t after g)
              t.decisions i.decisions;
        buys =
            AllRows-weaken (IsBought t) (IsBought after) (IsBought-Grows stamp t after g) t.buys
              i.buys;
        observations =
            AllRows-weaken (IsInHour t) (IsInHour after) (IsInHour-Grows stamp t after g)
              t.observations i.observations;
        heads =
            AllRows-weaken (IsOnBlock t) (IsOnBlock after) (IsOnBlock-Grows stamp t after g) t.heads
              i.heads;
      }

  pub insert_evidence-IsLedger :
      (values : HistoricalKolEvidence) (result : InsertResult HistoricalKolEvidence)
      (rows : List (Stored HistoricalKolEvidence))
      → append stamp constraints values t.evidence ≡ ok (result, rows)
      → IsLedger t
      → IsLedger (record t { evidence = rows })
  insert_evidence-IsLedger values result rows h i =
      let after : Tables = record t { evidence = rows } in
      let g : Grows stamp t after =
        evidence-Grows stamp t rows
          (append-Extends stamp constraints values t.evidence result rows h) in
      record {
        result_keys = i.result_keys;
        candidate_keys = i.candidate_keys;
        signal_keys = i.signal_keys;
        evidence_keys =
            append-AreKeyed stamp constraints values t.evidence result rows h i.evidence_keys;
        decision_keys = i.decision_keys;
        buy_keys = i.buy_keys;
        observation_keys = i.observation_keys;
        head_keys = i.head_keys;
        signals =
            AllRows-weaken (HasCandidate t) (HasCandidate after)
              (HasCandidate-Grows stamp t after g) t.signals i.signals;
        decisions =
            AllRows-weaken (IsCausal t) (IsCausal after) (IsCausal-Grows stamp t after g)
              t.decisions i.decisions;
        buys =
            AllRows-weaken (IsBought t) (IsBought after) (IsBought-Grows stamp t after g) t.buys
              i.buys;
        observations =
            AllRows-weaken (IsInHour t) (IsInHour after) (IsInHour-Grows stamp t after g)
              t.observations i.observations;
        heads =
            AllRows-weaken (IsOnBlock t) (IsOnBlock after) (IsOnBlock-Grows stamp t after g) t.heads
              i.heads;
      }

  pub insert_decision-IsLedger :
      (values : EntryDecision) (result : InsertResult EntryDecision)
      (rows : List (Stored EntryDecision))
      → append stamp constraints values t.decisions ≡ ok (result, rows)
      → IsLedger t
      → (result.inserted ≡ true → IsCausal (record t { decisions = rows }) values)
      → IsLedger (record t { decisions = rows })
  insert_decision-IsLedger values result rows h i q =
      let after : Tables = record t { decisions = rows } in
      let g : Grows stamp t after =
        decisions-Grows stamp t rows
          (append-Extends stamp constraints values t.decisions result rows h) in
      record {
        result_keys = i.result_keys;
        candidate_keys = i.candidate_keys;
        signal_keys = i.signal_keys;
        evidence_keys = i.evidence_keys;
        decision_keys =
            append-AreKeyed stamp constraints values t.decisions result rows h i.decision_keys;
        buy_keys = i.buy_keys;
        observation_keys = i.observation_keys;
        head_keys = i.head_keys;
        signals =
            AllRows-weaken (HasCandidate t) (HasCandidate after)
              (HasCandidate-Grows stamp t after g) t.signals i.signals;
        decisions =
            append-AllRows (IsCausal t) (IsCausal after) (IsCausal-Grows stamp t after g) stamp
              constraints values t.decisions result rows h i.decisions q;
        buys =
            AllRows-weaken (IsBought t) (IsBought after) (IsBought-Grows stamp t after g) t.buys
              i.buys;
        observations =
            AllRows-weaken (IsInHour t) (IsInHour after) (IsInHour-Grows stamp t after g)
              t.observations i.observations;
        heads =
            AllRows-weaken (IsOnBlock t) (IsOnBlock after) (IsOnBlock-Grows stamp t after g) t.heads
              i.heads;
      }

  pub insert_buy-IsLedger :
      (values : BuyRow) (result : InsertResult BuyRow) (rows : List (Stored BuyRow))
      → append stamp constraints values t.buys ≡ ok (result, rows)
      → IsLedger t
      → (result.inserted ≡ true → IsBought (record t { buys = rows }) values)
      → IsLedger (record t { buys = rows })
  insert_buy-IsLedger values result rows h i q =
      let after : Tables = record t { buys = rows } in
      let g : Grows stamp t after =
        buys-Grows stamp t rows (append-Extends stamp constraints values t.buys result rows h) in
      record {
        result_keys = i.result_keys;
        candidate_keys = i.candidate_keys;
        signal_keys = i.signal_keys;
        evidence_keys = i.evidence_keys;
        decision_keys = i.decision_keys;
        buy_keys = append-AreKeyed stamp constraints values t.buys result rows h i.buy_keys;
        observation_keys = i.observation_keys;
        head_keys = i.head_keys;
        signals =
            AllRows-weaken (HasCandidate t) (HasCandidate after)
              (HasCandidate-Grows stamp t after g) t.signals i.signals;
        decisions =
            AllRows-weaken (IsCausal t) (IsCausal after) (IsCausal-Grows stamp t after g)
              t.decisions i.decisions;
        buys =
            append-AllRows (IsBought t) (IsBought after) (IsBought-Grows stamp t after g) stamp
              constraints values t.buys result rows h i.buys q;
        observations =
            AllRows-weaken (IsInHour t) (IsInHour after) (IsInHour-Grows stamp t after g)
              t.observations i.observations;
        heads =
            AllRows-weaken (IsOnBlock t) (IsOnBlock after) (IsOnBlock-Grows stamp t after g) t.heads
              i.heads;
      }

  pub insert_observation-IsLedger :
      (values : ObservationRow) (result : InsertResult ObservationRow)
      (rows : List (Stored ObservationRow))
      → append stamp constraints values t.observations ≡ ok (result, rows)
      → IsLedger t
      → (result.inserted ≡ true → IsInHour (record t { observations = rows }) values)
      → IsLedger (record t { observations = rows })
  insert_observation-IsLedger values result rows h i q =
      let after : Tables = record t { observations = rows } in
      let g : Grows stamp t after =
        observations-Grows stamp t rows
          (append-Extends stamp constraints values t.observations result rows h) in
      record {
        result_keys = i.result_keys;
        candidate_keys = i.candidate_keys;
        signal_keys = i.signal_keys;
        evidence_keys = i.evidence_keys;
        decision_keys = i.decision_keys;
        buy_keys = i.buy_keys;
        observation_keys =
            append-AreKeyed stamp constraints values t.observations result rows h
              i.observation_keys;
        head_keys = i.head_keys;
        signals =
            AllRows-weaken (HasCandidate t) (HasCandidate after)
              (HasCandidate-Grows stamp t after g) t.signals i.signals;
        decisions =
            AllRows-weaken (IsCausal t) (IsCausal after) (IsCausal-Grows stamp t after g)
              t.decisions i.decisions;
        buys =
            AllRows-weaken (IsBought t) (IsBought after) (IsBought-Grows stamp t after g) t.buys
              i.buys;
        observations =
            append-AllRows (IsInHour t) (IsInHour after) (IsInHour-Grows stamp t after g) stamp
              constraints values t.observations result rows h i.observations q;
        heads =
            AllRows-weaken (IsOnBlock t) (IsOnBlock after) (IsOnBlock-Grows stamp t after g) t.heads
              i.heads;
      }

  pub insert_head-IsLedger :
      (values : HeadSighting) (result : InsertResult HeadSighting)
      (rows : List (Stored HeadSighting))
      → append stamp constraints values t.heads ≡ ok (result, rows)
      → IsLedger t
      → (result.inserted ≡ true → IsOnBlock (record t { heads = rows }) values)
      → IsLedger (record t { heads = rows })
  insert_head-IsLedger values result rows h i q =
      let after : Tables = record t { heads = rows } in
      let g : Grows stamp t after =
        heads-Grows stamp t rows (append-Extends stamp constraints values t.heads result rows h) in
      record {
        result_keys = i.result_keys;
        candidate_keys = i.candidate_keys;
        signal_keys = i.signal_keys;
        evidence_keys = i.evidence_keys;
        decision_keys = i.decision_keys;
        buy_keys = i.buy_keys;
        observation_keys = i.observation_keys;
        head_keys = append-AreKeyed stamp constraints values t.heads result rows h i.head_keys;
        signals =
            AllRows-weaken (HasCandidate t) (HasCandidate after)
              (HasCandidate-Grows stamp t after g) t.signals i.signals;
        decisions =
            AllRows-weaken (IsCausal t) (IsCausal after) (IsCausal-Grows stamp t after g)
              t.decisions i.decisions;
        buys =
            AllRows-weaken (IsBought t) (IsBought after) (IsBought-Grows stamp t after g) t.buys
              i.buys;
        observations =
            AllRows-weaken (IsInHour t) (IsInHour after) (IsInHour-Grows stamp t after g)
              t.observations i.observations;
        heads =
            append-AllRows (IsOnBlock t) (IsOnBlock after) (IsOnBlock-Grows stamp t after g) stamp
              constraints values t.heads result rows h i.heads q;
      }

pub results-IsLedger :
    (stamp : Stamp) (t : Tables) (rows : List OneHourResult)
    → Extends (IsCommitted stamp) t.results rows
    → ResultKeys rows
    → IsLedger t
    → IsLedger (record t { results = rows })
results-IsLedger stamp t rows e keys i =
    let after : Tables = record t { results = rows } in
    let g : Grows stamp t after = results-Grows stamp t rows e in
    record {
      result_keys = keys;
      candidate_keys = i.candidate_keys;
      signal_keys = i.signal_keys;
      evidence_keys = i.evidence_keys;
      decision_keys = i.decision_keys;
      buy_keys = i.buy_keys;
      observation_keys = i.observation_keys;
      head_keys = i.head_keys;
      signals =
          AllRows-weaken (HasCandidate t) (HasCandidate after) (HasCandidate-Grows stamp t after g)
            t.signals i.signals;
      decisions =
          AllRows-weaken (IsCausal t) (IsCausal after) (IsCausal-Grows stamp t after g) t.decisions
            i.decisions;
      buys =
          AllRows-weaken (IsBought t) (IsBought after) (IsBought-Grows stamp t after g) t.buys
            i.buys;
      observations =
          AllRows-weaken (IsInHour t) (IsInHour after) (IsInHour-Grows stamp t after g)
            t.observations i.observations;
      heads =
          AllRows-weaken (IsOnBlock t) (IsOnBlock after) (IsOnBlock-Grows stamp t after g) t.heads
            i.heads;
    }
