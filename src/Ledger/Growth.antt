-- ===== src/Ledger/Growth.antt =====
-- Every transaction of the ledger only appends: each table is the table before, followed by rows with the
-- transaction's stamp.
use debot.Base.{String, Bool, ◌≡◌, ap, Option, none, some, Result, ok, err, List, [], ◌∷◌, arith}
use debot.Ledger.Codec.{Python}
use debot.Ledger.Schema.{
  Candidate, CurrentSignal, HistoricalKolEvidence, EntryDecision, BuyRow, ObservationRow,
  HeadSighting,
}
use debot.Ledger.Columns.{
  candidate_columns, signal_columns, evidence_columns, decision_columns, buy_columns,
  observation_columns, head_columns,
}
use debot.Ledger.Finalize.{OneHourResult, settle_result, settle_visible, Ledger, StoredBuy}
use debot.Ledger.Outcomes.{SimulatedBuy, ChainPath}
use debot.Ledger.Transaction.{Stored, Tables, Stamp}
use debot.Ledger.Recording.{
  insert_candidate, insert_signal, insert_evidence, insert_decision, insert_buy, insert_observation,
  insert_head,
}
use debot.Ledger.Settlement.{with_results, add_result, Window}
use debot.Ledger.Keeps.{Keeps, Preorder, Discipline, Methods, Discipline-Methods}
use debot.Ledger.Settled.{IsCommitted, settle_buy-Inserts}
use debot.Ledger.Appending.{
  IsStamped, Extends, Extends-same, Extends-compose, append-Extends, put-eq-ok,
}

pub record Grows (stamp : Stamp) (before after : Tables) : Type 0 where
  pub candidates : Extends (IsStamped stamp) before.candidates after.candidates
  pub signals : Extends (IsStamped stamp) before.signals after.signals
  pub evidence : Extends (IsStamped stamp) before.evidence after.evidence
  pub decisions : Extends (IsStamped stamp) before.decisions after.decisions
  pub buys : Extends (IsStamped stamp) before.buys after.buys
  pub observations : Extends (IsStamped stamp) before.observations after.observations
  pub heads : Extends (IsStamped stamp) before.heads after.heads
  pub results : Extends (IsCommitted stamp) before.results after.results

Grows-same : (stamp : Stamp) (tables : Tables) → Grows stamp tables tables
Grows-same stamp tables = record {
  candidates = Extends-same _ _;
  signals = Extends-same _ _;
  evidence = Extends-same _ _;
  decisions = Extends-same _ _;
  buys = Extends-same _ _;
  observations = Extends-same _ _;
  heads = Extends-same _ _;
  results = Extends-same _ _;
}

Grows-compose :
    (stamp : Stamp) (a b c : Tables) → Grows stamp a b → Grows stamp b c → Grows stamp a c
Grows-compose stamp a b c g h = record {
  candidates = Extends-compose _ _ _ _ g.candidates h.candidates;
  signals = Extends-compose _ _ _ _ g.signals h.signals;
  evidence = Extends-compose _ _ _ _ g.evidence h.evidence;
  decisions = Extends-compose _ _ _ _ g.decisions h.decisions;
  buys = Extends-compose _ _ _ _ g.buys h.buys;
  observations = Extends-compose _ _ _ _ g.observations h.observations;
  heads = Extends-compose _ _ _ _ g.heads h.heads;
  results = Extends-compose _ _ _ _ g.results h.results;
}

pub Grows-Preorder : Preorder Grows
Grows-Preorder = record { same = Grows-same; compose = Grows-compose }

pub candidates-Grows :
    (stamp : Stamp) (tables : Tables) (rows : List (Stored Candidate))
    → Extends (IsStamped stamp) tables.candidates rows
    → Grows stamp tables (record tables { candidates = rows })
candidates-Grows stamp tables rows e = record {
  candidates = e;
  signals = Extends-same _ _;
  evidence = Extends-same _ _;
  decisions = Extends-same _ _;
  buys = Extends-same _ _;
  observations = Extends-same _ _;
  heads = Extends-same _ _;
  results = Extends-same _ _;
}

pub signals-Grows :
    (stamp : Stamp) (tables : Tables) (rows : List (Stored CurrentSignal))
    → Extends (IsStamped stamp) tables.signals rows
    → Grows stamp tables (record tables { signals = rows })
signals-Grows stamp tables rows e = record {
  candidates = Extends-same _ _;
  signals = e;
  evidence = Extends-same _ _;
  decisions = Extends-same _ _;
  buys = Extends-same _ _;
  observations = Extends-same _ _;
  heads = Extends-same _ _;
  results = Extends-same _ _;
}

pub evidence-Grows :
    (stamp : Stamp) (tables : Tables) (rows : List (Stored HistoricalKolEvidence))
    → Extends (IsStamped stamp) tables.evidence rows
    → Grows stamp tables (record tables { evidence = rows })
evidence-Grows stamp tables rows e = record {
  candidates = Extends-same _ _;
  signals = Extends-same _ _;
  evidence = e;
  decisions = Extends-same _ _;
  buys = Extends-same _ _;
  observations = Extends-same _ _;
  heads = Extends-same _ _;
  results = Extends-same _ _;
}

pub decisions-Grows :
    (stamp : Stamp) (tables : Tables) (rows : List (Stored EntryDecision))
    → Extends (IsStamped stamp) tables.decisions rows
    → Grows stamp tables (record tables { decisions = rows })
decisions-Grows stamp tables rows e = record {
  candidates = Extends-same _ _;
  signals = Extends-same _ _;
  evidence = Extends-same _ _;
  decisions = e;
  buys = Extends-same _ _;
  observations = Extends-same _ _;
  heads = Extends-same _ _;
  results = Extends-same _ _;
}

pub buys-Grows :
    (stamp : Stamp) (tables : Tables) (rows : List (Stored BuyRow))
    → Extends (IsStamped stamp) tables.buys rows
    → Grows stamp tables (record tables { buys = rows })
buys-Grows stamp tables rows e = record {
  candidates = Extends-same _ _;
  signals = Extends-same _ _;
  evidence = Extends-same _ _;
  decisions = Extends-same _ _;
  buys = e;
  observations = Extends-same _ _;
  heads = Extends-same _ _;
  results = Extends-same _ _;
}

pub observations-Grows :
    (stamp : Stamp) (tables : Tables) (rows : List (Stored ObservationRow))
    → Extends (IsStamped stamp) tables.observations rows
    → Grows stamp tables (record tables { observations = rows })
observations-Grows stamp tables rows e = record {
  candidates = Extends-same _ _;
  signals = Extends-same _ _;
  evidence = Extends-same _ _;
  decisions = Extends-same _ _;
  buys = Extends-same _ _;
  observations = e;
  heads = Extends-same _ _;
  results = Extends-same _ _;
}

pub heads-Grows :
    (stamp : Stamp) (tables : Tables) (rows : List (Stored HeadSighting))
    → Extends (IsStamped stamp) tables.heads rows
    → Grows stamp tables (record tables { heads = rows })
heads-Grows stamp tables rows e = record {
  candidates = Extends-same _ _;
  signals = Extends-same _ _;
  evidence = Extends-same _ _;
  decisions = Extends-same _ _;
  buys = Extends-same _ _;
  observations = Extends-same _ _;
  heads = e;
  results = Extends-same _ _;
}

pub results-Grows :
    (stamp : Stamp) (tables : Tables) (rows : List (OneHourResult))
    → Extends (IsCommitted stamp) tables.results rows
    → Grows stamp tables (record tables { results = rows })
results-Grows stamp tables rows e = record {
  candidates = Extends-same _ _;
  signals = Extends-same _ _;
  evidence = Extends-same _ _;
  decisions = Extends-same _ _;
  buys = Extends-same _ _;
  observations = Extends-same _ _;
  heads = Extends-same _ _;
  results = e;
}

pub insert_candidate-Grows : (values : Candidate) → Keeps Grows (insert_candidate values)
unfolding insert_candidate
insert_candidate-Grows values = record {
  apply = λ stamp before value after h.
      let (rows, e, p) = put-eq-ok (λ rows. record before { candidates = rows }) _ value after h in
      rw p (candidates-Grows stamp before rows (append-Extends stamp _ values _ value rows e));
}

pub insert_signal-Grows : (values : CurrentSignal) → Keeps Grows (insert_signal values)
unfolding insert_signal
insert_signal-Grows values = record {
  apply = λ stamp before value after h.
      let (rows, e, p) = put-eq-ok (λ rows. record before { signals = rows }) _ value after h in
      rw p (signals-Grows stamp before rows (append-Extends stamp _ values _ value rows e));
}

pub insert_evidence-Grows : (values : HistoricalKolEvidence) → Keeps Grows (insert_evidence values)
unfolding insert_evidence
insert_evidence-Grows values = record {
  apply = λ stamp before value after h.
      let (rows, e, p) = put-eq-ok (λ rows. record before { evidence = rows }) _ value after h in
      rw p (evidence-Grows stamp before rows (append-Extends stamp _ values _ value rows e));
}

pub insert_decision-Grows : (values : EntryDecision) → Keeps Grows (insert_decision values)
unfolding insert_decision
insert_decision-Grows values = record {
  apply = λ stamp before value after h.
      let (rows, e, p) = put-eq-ok (λ rows. record before { decisions = rows }) _ value after h in
      rw p (decisions-Grows stamp before rows (append-Extends stamp _ values _ value rows e));
}

pub insert_buy-Grows : (values : BuyRow) → Keeps Grows (insert_buy values)
unfolding insert_buy
insert_buy-Grows values = record {
  apply = λ stamp before value after h.
      let (rows, e, p) = put-eq-ok (λ rows. record before { buys = rows }) _ value after h in
      rw p (buys-Grows stamp before rows (append-Extends stamp _ values _ value rows e));
}

pub insert_observation-Grows : (values : ObservationRow) → Keeps Grows (insert_observation values)
unfolding insert_observation
insert_observation-Grows values = record {
  apply = λ stamp before value after h.
      let (rows, e, p) =
        put-eq-ok (λ rows. record before { observations = rows }) _ value after h in
      rw p (observations-Grows stamp before rows (append-Extends stamp _ values _ value rows e));
}

pub insert_head-Grows : (values : HeadSighting) → Keeps Grows (insert_head values)
unfolding insert_head
insert_head-Grows values = record {
  apply = λ stamp before value after h.
      let (rows, e, p) = put-eq-ok (λ rows. record before { heads = rows }) _ value after h in
      rw p (heads-Grows stamp before rows (append-Extends stamp _ values _ value rows e));
}

abbrev pub NewResults : Stamp → Ledger → Ledger → Type 0
NewResults stamp before after = Extends (IsCommitted stamp) before.results after.results

pub settle-NewResults :
    (python : Python) (w : Window) (stamp : Stamp) (path : SimulatedBuy → ChainPath)
    (ledger : Ledger) (held : Option OneHourResult) (stored : Option StoredBuy)
    (value : OneHourResult × Bool) (after : Ledger)
    → settle_result held ledger (settle_visible python w stamp path ledger stored)
      ≡ ok (value, after)
    → NewResults stamp ledger after
settle-NewResults python w stamp path ledger (some r) stored value after h =
    let kept : ledger ≡ after = cc in rw (← kept) (Extends-same _ ledger.results)
settle-NewResults python w stamp path ledger none none value after h = absurd (ground arith)
settle-NewResults python w stamp path ledger none (some b) (result, inserted) after h =
    let (id, committed, grown) =
      settle_buy-Inserts python b.buy w stamp (path b.buy) ledger result inserted after h in
    record {
      added = result ∷ [];
      behind = ap (λ (l : Ledger). l.results) grown;
      each = (committed, tt);
    }

pub result_eq_ok :
    (tables : Tables) (r : Result ((OneHourResult × Bool) × Ledger)) (value : OneHourResult × Bool)
    (after : Tables)
    → with_results tables r ≡ ok (value, after)
    → (ledger : Ledger) × (r ≡ ok (value, ledger))
      × (after ≡ record tables { results = ledger.results })
result_eq_ok tables (err error) value after h = absurd (ground arith)
result_eq_ok tables (ok (result, ledger)) value after h = (ledger, ground arith, ground arith)

pub add_result-Grows :
    (python : Python) (buy_id : String) (w : Window) → Keeps Grows (add_result python buy_id w)
unfolding add_result
add_result-Grows python buy_id w = record {
  apply = λ stamp before value after h.
      let (ledger, e, p) = result_eq_ok before _ value after h in
      rw p (
        results-Grows stamp before ledger.results
          (settle-NewResults python w stamp _ _ _ _ value ledger e));
}

Grows-Discipline : Discipline Grows
Grows-Discipline = record {
  preorder = Grows-Preorder;
  candidates = insert_candidate-Grows;
  signals = insert_signal-Grows;
  evidence = insert_evidence-Grows;
  decisions = insert_decision-Grows;
  buys = insert_buy-Grows;
  observations = insert_observation-Grows;
  heads = insert_head-Grows;
  results = add_result-Grows;
}

-- The transaction of every method only appends rows with its stamp.
pub Grows-Methods : Methods Grows
Grows-Methods = Discipline-Methods Grows Grows-Discipline
