-- ===== src/Ledger/Keeps.antt =====
-- What holds of every transaction of the ledger, if it holds of every insertion: a relation between the
-- tables before and after that is reflexive and transitive.
use debot.Base.{
  String, Bool, true, false, ◌≡◌, refl, Option, none, some, Result, ok, err, Error, arith,
  if◌then◌else◌,
}
use debot.Ledger.Codec.{Python}
use debot.Ledger.Schema.{
  Candidate, CurrentSignal, HistoricalKolEvidence, EntryDecision, BuyRow, ObservationRow,
  HeadSighting,
}
use debot.Ledger.Settlement.{Window, add_result}
use debot.Ledger.Transaction.{
  InsertResult, Tables, Stamp, Tx, ◌>>=◌, ◌>>◌, give, pure, require, select, current_time,
}
use debot.Ledger.Recording.{
  insert_candidate, insert_signal, insert_evidence, insert_decision, insert_buy, insert_observation,
  insert_head, add_signal, add_decision, add_buy, add_observation, add_head, require_historical,
  require_causal, require_bought, require_in_hour, the, when_inserted,
}

abbrev pub Relation : Type 1
Relation = Stamp → Tables → Tables → Type 0

-- A transaction that returns relates the tables before and after.
pub record Keeps {A : Type 0} (R : Relation) (body : Tx A) : Type 0 where
  pub apply :
      (stamp : Stamp) (before : Tables) (value : A) (after : Tables)
      → body stamp before ≡ ok (value, after)
      → R stamp before after

pub record Preorder (R : Relation) : Type 0 where
  pub same : (stamp : Stamp) (tables : Tables) → R stamp tables tables
  pub compose : (stamp : Stamp) (a b c : Tables) → R stamp a b → R stamp b c → R stamp a c

-- A preorder that each insertion keeps.
pub record Discipline (R : Relation) : Type 0 where
  pub preorder : Preorder R
  pub candidates : (values : Candidate) → Keeps R (insert_candidate values)
  pub signals : (values : CurrentSignal) → Keeps R (insert_signal values)
  pub evidence : (values : HistoricalKolEvidence) → Keeps R (insert_evidence values)
  pub decisions : (values : EntryDecision) → Keeps R (insert_decision values)
  pub buys : (values : BuyRow) → Keeps R (insert_buy values)
  pub observations : (values : ObservationRow) → Keeps R (insert_observation values)
  pub heads : (values : HeadSighting) → Keeps R (insert_head values)
  pub results :
      (python : Python) (buy_id : String) (w : Window) → Keeps R (add_result python buy_id w)

-- A preorder that the transaction of each method keeps.
pub record Methods (R : Relation) : Type 0 where
  pub preorder : Preorder R
  pub candidates : (values : Candidate) → Keeps R (insert_candidate values)
  pub signals : (given : CurrentSignal) → Keeps R (add_signal given)
  pub evidence : (values : HistoricalKolEvidence) → Keeps R (insert_evidence values)
  pub decisions : (values : EntryDecision) → Keeps R (add_decision values)
  pub buys : (python : Python) (given : BuyRow) → Keeps R (add_buy python given)
  pub observations : (values : ObservationRow) → Keeps R (add_observation values)
  pub heads : (values : HeadSighting) → Keeps R (add_head values)
  pub results :
      (python : Python) (buy_id : String) (w : Window) → Keeps R (add_result python buy_id w)

module _ {A B : Type 0} (next : A → Tx B) (stamp : Stamp) (before : Tables) where
  continue-eq-ok :
      (r : Result (A × Tables)) (value : B) (after : Tables)
      → elim r [ err error ↦ err error | ok (a, middle) ↦ next a stamp middle ] ≡ ok (value, after)
      → (a : A) × (middle : Tables) × (r ≡ ok (a, middle))
        × (next a stamp middle ≡ ok (value, after))
  continue-eq-ok (err error) value after h = absurd (ground arith)
  continue-eq-ok (ok (a, middle)) value after h = (a, middle, refl, h)

  -- A step that returns, and what follows it.
  pub bind-eq-ok :
      (first : Tx A) (value : B) (after : Tables)
      → (first >>= next) stamp before ≡ ok (value, after)
      → (a : A) × (middle : Tables) × (first stamp before ≡ ok (a, middle))
        × (next a stamp middle ≡ ok (value, after))
  unfolding ◌>>=◌
  bind-eq-ok first value after h = continue-eq-ok (first stamp before) value after h

module _ (R : Relation) (d : Preorder R) where
  pub bind-Keeps :
      {A B : Type 0} (first : Tx A) (next : A → Tx B)
      → Keeps R first
      → ((a : A) → Keeps R (next a))
      → Keeps R (first >>= next)
  bind-Keeps first next k l = record {
    apply = λ stamp before value after h.
        let (a, middle, e, f) = bind-eq-ok next stamp before first value after h in
        d.compose stamp before middle after (k.apply stamp before a middle e)
          ((l a).apply stamp middle value after f);
  }

  stays :
      {A : Type 0} (body : Tx A)
      → ((stamp : Stamp) (before : Tables) (value : A) (after : Tables)
          → body stamp before ≡ ok (value, after)
          → before ≡ after)
      → Keeps R body
  stays body h = record {
    apply = λ stamp before value after e. rw (h stamp before value after e) (d.same stamp after);
  }

  pub give-Keeps : {A : Type 0} (a : A) → Keeps R (give a)
  give-Keeps a = stays (give a) (λ stamp before value after e. cc)

  pub select-Keeps : {A : Type 0} (query : Tables → A) → Keeps R (select query)
  select-Keeps query = stays (select query) (λ stamp before value after e. cc)

  pub time-Keeps : Keeps R current_time
  time-Keeps = stays current_time (λ stamp before value after e. cc)

  pub pure-Keeps : {A : Type 0} (r : Result A) → Keeps R (pure r)
  pure-Keeps (ok a) = stays (pure (ok a)) (λ stamp before value after e. cc)
  pure-Keeps (err e) = stays (pure (err e)) (λ stamp before value after h. cc)

  pub the-Keeps : {A : Type 0} (o : Option A) → Keeps R (the o)
  the-Keeps none = pure-Keeps (err _)
  the-Keeps (some a) = give-Keeps a

  pub require-Keeps : (test : Bool) (error : Error) → Keeps R (require test error)
  require-Keeps true error = stays (require true error) (λ stamp before value after e. cc)
  require-Keeps false error = stays (require false error) (λ stamp before value after e. cc)

  pub when_inserted-Keeps :
      {A : Type 0} (result : InsertResult A) (rest : Tx (Unit {0}))
      → Keeps R rest
      → Keeps R (when_inserted result rest)
  when_inserted-Keeps result rest k = branch result.inserted
    where
      branch : (b : Bool) → Keeps R (if b then rest >> give result else give result)
      branch true = bind-Keeps rest (λ _. give result) k (λ _. give-Keeps result)
      branch false = give-Keeps result

  pub ruleset steps = (
    bind-Keeps, give-Keeps, select-Keeps, time-Keeps, pure-Keeps, the-Keeps, require-Keeps,
    when_inserted-Keeps,
  )

  pub require_historical-Keeps :
      (evidence : Option String) (values : EntryDecision)
      → Keeps R (require_historical evidence values)
  unfolding require_historical
  require_historical-Keeps none values = give-Keeps tt
  require_historical-Keeps (some evidence_id) values = search steps depth 16

  pub require_causal-Keeps : (values : EntryDecision) → Keeps R (require_causal values)
  unfolding require_causal
  require_causal-Keeps values = search (steps, require_historical-Keeps) depth 16

  pub require_bought-Keeps :
      (decision : EntryDecision) (values : BuyRow) → Keeps R (require_bought decision values)
  unfolding require_bought
  require_bought-Keeps decision values = search steps depth 16

  pub require_in_hour-Keeps : (values : ObservationRow) → Keeps R (require_in_hour values)
  unfolding require_in_hour
  require_in_hour-Keeps values = search steps depth 16

module _ (R : Relation) (d : Discipline R) where
  add_signal-Keeps : (given : CurrentSignal) → Keeps R (add_signal given)
  unfolding add_signal
  add_signal-Keeps given = search (steps, d.preorder, d.signals) depth 16

  add_decision-Keeps : (values : EntryDecision) → Keeps R (add_decision values)
  unfolding add_decision
  add_decision-Keeps values = search (steps, d.preorder, d.decisions, require_causal-Keeps) depth 16

  add_buy-Keeps : (python : Python) (given : BuyRow) → Keeps R (add_buy python given)
  unfolding add_buy
  add_buy-Keeps python given = search (steps, d.preorder, d.buys, require_bought-Keeps) depth 16

  add_observation-Keeps : (values : ObservationRow) → Keeps R (add_observation values)
  unfolding add_observation
  add_observation-Keeps values =
      search (steps, d.preorder, d.observations, require_in_hour-Keeps) depth 16

  add_head-Keeps : (values : HeadSighting) → Keeps R (add_head values)
  unfolding add_head
  add_head-Keeps values = search (steps, d.preorder, d.heads) depth 16

  -- A preorder that each insertion keeps is one that each method keeps.
  pub Discipline-Methods : Methods R
  Discipline-Methods = record {
    preorder = d.preorder;
    candidates = d.candidates;
    signals = add_signal-Keeps;
    evidence = d.evidence;
    decisions = add_decision-Keeps;
    buys = add_buy-Keeps;
    observations = add_observation-Keeps;
    heads = add_head-Keeps;
    results = d.results;
  }
