-- ===== src/Ledger/Sealed.antt =====
-- A one-hour result seals the facts of its buy: no call adds an observation or a head sighting of it.
use debot.Base.{
  String, Bool, true, false, ◌&&◌, not, ◌≡◌, refl, ap, ◌∙◌, List, [], ◌∷◌, ◌++◌, arith, find?, any,
  satisfying, str_eq, eq_iff, Bool-cases, inl, inr, ok,
}
use debot.Ledger.Schema.{
  Candidate, CurrentSignal, HistoricalKolEvidence, EntryDecision, BuyRow, ObservationRow,
  HeadSighting,
}
use debot.Ledger.Columns.{observation_columns, head_columns}
use debot.Ledger.Codec.{Python}
use debot.Ledger.Finalize.{is_of}
use debot.Ledger.Transaction.{Stored, InsertResult, Tables, Stamp, Store, append, new_stored, close}
use debot.Ledger.Reads.{is_finalized}
use debot.Ledger.Recording.{
  insert_candidate, insert_signal, insert_evidence, insert_decision, insert_buy, insert_observation,
  insert_head,
}
use debot.Ledger.Settlement.{add_result, Window}
use debot.Ledger.Requests.{Request, run}
use debot.Ledger.Appending.{Appended, found, placed, append-Appended, put-eq-ok}
use debot.Ledger.Keeps.{Relation, Keeps, Preorder, Methods, Discipline-Methods}
use debot.Ledger.Growth.{settle-NewResults, result_eq_ok}
use debot.Ledger.Effects.{run-keeps}

abbrev observation_of : String → Stored ObservationRow → Bool
observation_of buy_id row = str_eq row.content.buy_id buy_id

abbrev head_of : String → Stored HeadSighting → Bool
head_of buy_id row = str_eq row.content.buy_id buy_id

-- The observations, the head sightings and the result of a buy are the same.
pub record Sealed (buy_id : String) (before after : Tables) : Type 0 where
  pub finalized : is_finalized buy_id after ≡ true
  pub observations :
      satisfying (observation_of buy_id) after.observations
      ≡ satisfying (observation_of buy_id) before.observations
  pub heads : satisfying (head_of buy_id) after.heads ≡ satisfying (head_of buy_id) before.heads
  pub result : find? (is_of buy_id) after.results ≡ find? (is_of buy_id) before.results

abbrev Seals : Relation
Seals stamp before after =
    (buy_id : String) → is_finalized buy_id before ≡ true → Sealed buy_id before after

module _ {A : Type 0} (test : A → Bool) where
  satisfying-append :
      (xs : List A) (y : A) → test y ≡ false → satisfying test (xs ++ y ∷ []) ≡ satisfying test xs
  satisfying-append [] y h = rw h refl
  satisfying-append (x ∷ xs) y h = rw (satisfying-append xs y h) refl

  find?-kept : (xs ys : List A) → any test xs ≡ true → find? test (xs ++ ys) ≡ find? test xs
  find?-kept [] ys h = absurd (ground arith)
  find?-kept (x ∷ xs) ys h = ground (arith, find?-kept xs ys)

  any-kept : (xs ys : List A) → any test xs ≡ true → any test (xs ++ ys) ≡ true
  any-kept [] ys h = absurd (ground arith)
  any-kept (x ∷ xs) ys h = ground (arith, any-kept xs ys)

-- The rows of a buy after an insertion of a row that is not of it.
append-satisfying_observation :
    (stamp : Stamp) (constraints : Bool) (values : ObservationRow)
    (rows after : List (Stored ObservationRow)) (result : InsertResult ObservationRow)
    (buy_id : String)
    → append stamp constraints values rows ≡ ok (result, after)
    → (constraints ≡ true → str_eq values.buy_id buy_id ≡ false)
    → satisfying (observation_of buy_id) after ≡ satisfying (observation_of buy_id) rows
append-satisfying_observation stamp constraints values rows after result buy_id h other =
    same (append-Appended stamp constraints values rows result after h)
  where
    same :
        Appended stamp constraints values rows result after
        → satisfying (observation_of buy_id) after ≡ satisfying (observation_of buy_id) rows
    same (found row e c r a) = rw a refl
    same (placed e c r a) =
        rw a (satisfying-append (observation_of buy_id) rows (new_stored stamp values) (other c))

append-satisfying_head :
    (stamp : Stamp) (constraints : Bool) (values : HeadSighting)
    (rows after : List (Stored HeadSighting)) (result : InsertResult HeadSighting) (buy_id : String)
    → append stamp constraints values rows ≡ ok (result, after)
    → (constraints ≡ true → str_eq values.buy_id buy_id ≡ false)
    → satisfying (head_of buy_id) after ≡ satisfying (head_of buy_id) rows
append-satisfying_head stamp constraints values rows after result buy_id h other =
    same (append-Appended stamp constraints values rows result after h)
  where
    same :
        Appended stamp constraints values rows result after
        → satisfying (head_of buy_id) after ≡ satisfying (head_of buy_id) rows
    same (found row e c r a) = rw a refl
    same (placed e c r a) =
        rw a (satisfying-append (head_of buy_id) rows (new_stored stamp values) (other c))

-- A row that the database accepts is of a buy that is not finalized.
other_buy :
    (values_id buy_id : String) (rest : Bool) (t : Tables)
    → is_finalized buy_id t ≡ true
    → (rest && not (is_finalized values_id t)) ≡ true
    → str_eq values_id buy_id ≡ false
other_buy values_id buy_id rest t f c = elim (Bool-cases (str_eq values_id buy_id)) [
  | inl is ↦
      let e = (eq_iff values_id buy_id).0 is in
      absurd (ground (arith, ap (λ k. is_finalized k t) e))
  | inr other ↦ other
]

Seals-same : (stamp : Stamp) (tables : Tables) → Seals stamp tables tables
Seals-same stamp tables buy_id f = record {
  finalized = f;
  observations = refl;
  heads = refl;
  result = refl;
}

insert_candidate-Seals : (values : Candidate) → Keeps Seals (insert_candidate values)
unfolding insert_candidate
insert_candidate-Seals values = record {
  apply = λ stamp before value after h buy_id f.
      let (rows, e, p) = put-eq-ok (λ rows. record before { candidates = rows }) _ value after h in
      rw p (record { finalized = f; observations = refl; heads = refl; result = refl });
}

insert_signal-Seals : (values : CurrentSignal) → Keeps Seals (insert_signal values)
unfolding insert_signal
insert_signal-Seals values = record {
  apply = λ stamp before value after h buy_id f.
      let (rows, e, p) = put-eq-ok (λ rows. record before { signals = rows }) _ value after h in
      rw p (record { finalized = f; observations = refl; heads = refl; result = refl });
}

insert_evidence-Seals : (values : HistoricalKolEvidence) → Keeps Seals (insert_evidence values)
unfolding insert_evidence
insert_evidence-Seals values = record {
  apply = λ stamp before value after h buy_id f.
      let (rows, e, p) = put-eq-ok (λ rows. record before { evidence = rows }) _ value after h in
      rw p (record { finalized = f; observations = refl; heads = refl; result = refl });
}

insert_decision-Seals : (values : EntryDecision) → Keeps Seals (insert_decision values)
unfolding insert_decision
insert_decision-Seals values = record {
  apply = λ stamp before value after h buy_id f.
      let (rows, e, p) = put-eq-ok (λ rows. record before { decisions = rows }) _ value after h in
      rw p (record { finalized = f; observations = refl; heads = refl; result = refl });
}

insert_buy-Seals : (values : BuyRow) → Keeps Seals (insert_buy values)
unfolding insert_buy
insert_buy-Seals values = record {
  apply = λ stamp before value after h buy_id f.
      let (rows, e, p) = put-eq-ok (λ rows. record before { buys = rows }) _ value after h in
      rw p (record { finalized = f; observations = refl; heads = refl; result = refl });
}

insert_observation-Seals : (values : ObservationRow) → Keeps Seals (insert_observation values)
unfolding insert_observation
insert_observation-Seals values = record {
  apply = λ stamp before value after h buy_id f.
      let (rows, e, p) =
        put-eq-ok (λ rows. record before { observations = rows }) _ value after h in
      rw p (record {
        finalized = f;
        observations =
            append-satisfying_observation stamp _ values before.observations rows value buy_id e
              (other_buy values.buy_id buy_id _ before f);
        heads = refl;
        result = refl;
      });
}

insert_head-Seals : (values : HeadSighting) → Keeps Seals (insert_head values)
unfolding insert_head
insert_head-Seals values = record {
  apply = λ stamp before value after h buy_id f.
      let (rows, e, p) = put-eq-ok (λ rows. record before { heads = rows }) _ value after h in
      rw p (record {
        finalized = f;
        observations = refl;
        heads =
            append-satisfying_head stamp _ values before.heads rows value buy_id e
              (other_buy values.buy_id buy_id _ before f);
        result = refl;
      });
}

add_result-Seals :
    (python : Python) (buy_id : String) (w : Window) → Keeps Seals (add_result python buy_id w)
unfolding add_result
add_result-Seals python given w = record {
  apply = λ stamp before value after h buy_id f.
      let (ledger, e, p) = result_eq_ok before _ value after h in
      let x = settle-NewResults python w stamp _ _ _ _ value ledger e in
      rw p (record {
        finalized = rw x.behind (any-kept (is_of buy_id) before.results x.added f);
        observations = refl;
        heads = refl;
        result = rw x.behind (find?-kept (is_of buy_id) before.results x.added f);
      });
}

Seals-Preorder : Preorder Seals
Seals-Preorder = record {
  same = Seals-same;
  compose = λ stamp a b c r s buy_id f.
      let g = r buy_id f in
      let h = s buy_id g.finalized in
      record {
        finalized = h.finalized;
        observations = h.observations ∙ g.observations;
        heads = h.heads ∙ g.heads;
        result = h.result ∙ g.result;
      };
}

Seals-Methods : Methods Seals
Seals-Methods = Discipline-Methods Seals (record {
  preorder = Seals-Preorder;
  candidates = insert_candidate-Seals;
  signals = insert_signal-Seals;
  evidence = insert_evidence-Seals;
  decisions = insert_decision-Seals;
  buys = insert_buy-Seals;
  observations = insert_observation-Seals;
  heads = insert_head-Seals;
  results = add_result-Seals;
})

-- Once a buy has a one-hour result, no history of calls adds an observation or a head sighting of it, and
-- its result stays.
pub run-Sealed :
    (python : Python) (requests : List Request) (store : Store) (buy_id : String)
    → is_finalized buy_id store.tables ≡ true
    → Sealed buy_id store.tables (run python requests store).tables
unfolding close
run-Sealed python requests store buy_id f =
    run-keeps Seals Seals-Methods python (λ s. Sealed buy_id store.tables s.tables) (λ s j. j)
      (λ s raw after j seals.
        let h = seals buy_id j.finalized in
        record {
          finalized = h.finalized;
          observations = h.observations ∙ j.observations;
          heads = h.heads ∙ j.heads;
          result = h.result ∙ j.result;
        })
      requests store (record { finalized = f; observations = refl; heads = refl; result = refl })
