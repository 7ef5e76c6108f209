-- ===== src/Ledger/Causality.antt =====
-- Decisions of the ledger are causal: what the methods check of candidates, signals, evidence and decisions
-- makes each new row grounded.
use mathlib.Core.List.{Memᴰ}
use debot.Base.{
  String, true, ◌≡◌, refl, sym, ◌∙◌, subst, Option, none, some, arith, eq_iff, find?-Memᴰ,
  find?-test, ok, &&-true,
}
use debot.Ledger.Schema.{
  Candidate, CurrentSignal, HistoricalKolEvidence, EntryDecision, BuyRow, ObservationRow,
}
use debot.Ledger.Columns.{
  candidate_columns, signal_columns, evidence_columns, decision_columns, buy_columns,
  observation_columns, head_columns,
}
use debot.Ledger.Transaction.{Stored, InsertResult, Tables, Stamp, Tx, has_key}
use debot.Ledger.Reads.{is_historical, is_eligible, current_signal, candidate, signal}
use debot.Ledger.Keys.{any-Memᴰ, AreKeyed-unique, AreKeyed}
use debot.Ledger.Checks.{clean_signal}
use debot.Ledger.Recording.{
  insert_candidate, insert_signal, insert_evidence, insert_decision, insert_buy, insert_observation,
  add_signal, add_decision, require_historical, require_causal, is_some,
}
use debot.Ledger.Appending.{put-eq-ok}
use debot.Ledger.Growth.{Grows, insert_decision-Grows, insert_buy-Grows, insert_observation-Grows}
use debot.Ledger.Keeps.{require_causal-Keeps, Relation, Keeps}
use debot.Ledger.Inversion.{
  Returns, the-Returns, require-Returns, select-Returns, pure-Returns, bind-Returns, give-Returns,
  last-Returns, when_inserted-Returns, Same-Preorder,
}
use debot.Ledger.Grounded.{Precedes, IsCausal, IsBought, IsInHour, IsLedger}
use debot.Ledger.Selecting.{latest-Memᴰ, is_historical-IsHistorical}
use debot.Ledger.Keeping.{
  insert_candidate-IsLedger, insert_signal-IsLedger, insert_evidence-IsLedger,
  insert_decision-IsLedger, insert_buy-IsLedger, insert_observation-IsLedger,
}

-- A transaction keeps the invariant.
abbrev pub KeepsLedger : Relation
KeepsLedger stamp before after = IsLedger before → IsLedger after

pub insert_candidate-KeepsLedger :
    (values : Candidate) → Keeps KeepsLedger (insert_candidate values)
unfolding insert_candidate
insert_candidate-KeepsLedger values = record {
  apply = λ stamp before value after h i.
      let (rows, e, p) = put-eq-ok (λ rows. record before { candidates = rows }) _ value after h in
      rw p (insert_candidate-IsLedger stamp before _ values value rows e i);
}

pub insert_evidence-KeepsLedger :
    (values : HistoricalKolEvidence) → Keeps KeepsLedger (insert_evidence values)
unfolding insert_evidence
insert_evidence-KeepsLedger values = record {
  apply = λ stamp before value after h i.
      let (rows, e, p) = put-eq-ok (λ rows. record before { evidence = rows }) _ value after h in
      rw p (insert_evidence-IsLedger stamp before _ values value rows e i);
}

clean_signal-candidate_id :
    (given clean : CurrentSignal)
    → clean_signal given ≡ ok clean
    → clean.candidate_id ≡ given.candidate_id
unfolding clean_signal
clean_signal-candidate_id given clean h = ground arith

-- A transaction that keeps the invariant wherever it returns.
pub Returns-Keeps :
    {A : Type 0} (body : Tx A)
    → ((stamp : Stamp) (before : Tables)
        → IsLedger before
        → Returns stamp before body (λ value after. IsLedger after))
    → Keeps KeepsLedger body
Returns-Keeps body r = record {
  apply = λ stamp before value after h i. (r stamp before i).apply value after h;
}

module _ (stamp : Stamp) (before : Tables) (i : IsLedger before) where
  -- What is left to show after an insertion: that a new row is grounded.
  abbrev pub Pending : {A : Type 0} → (Tables → Type 0) → InsertResult A → Tables → Type 0
  Pending fact result after =
      (after.signals ≡ before.signals)
      × Grows stamp before after
      × ((result.inserted ≡ true → fact after) → IsLedger after)

  insert_decision-Returns :
      (values : EntryDecision)
      → Returns stamp before (insert_decision values) (Pending (λ t. IsCausal t values))
  unfolding insert_decision
  insert_decision-Returns values = record {
    apply = λ value after h.
        let (rows, e, p) = put-eq-ok (λ rows. record before { decisions = rows }) _ value after h in
        (
          rw p refl,
          (insert_decision-Grows values).apply stamp before value after h,
          rw p (insert_decision-IsLedger stamp before _ values value rows e i),
        );
  }

  pub insert_buy-Returns :
      (values : BuyRow)
      → Returns stamp before (insert_buy values) (Pending (λ t. IsBought t values))
  unfolding insert_buy
  insert_buy-Returns values = record {
    apply = λ value after h.
        let (rows, e, p) = put-eq-ok (λ rows. record before { buys = rows }) _ value after h in
        (
          rw p refl,
          (insert_buy-Grows values).apply stamp before value after h,
          rw p (insert_buy-IsLedger stamp before _ values value rows e i),
        );
  }

  pub insert_observation-Returns :
      (values : ObservationRow)
      → Returns stamp before (insert_observation values) (Pending (λ t. IsInHour t values))
  unfolding insert_observation
  insert_observation-Returns values = record {
    apply = λ value after h.
        let (rows, e, p) =
          put-eq-ok (λ rows. record before { observations = rows }) _ value after h in
        (
          rw p refl,
          (insert_observation-Grows values).apply stamp before value after h,
          rw p (insert_observation-IsLedger stamp before _ values value rows e i),
        );
  }

  pub add_signal-Returns :
      (given : CurrentSignal) → Returns stamp before (add_signal given) (λ value t. IsLedger t)
  unfolding add_signal insert_signal
  add_signal-Returns given = select-Returns stamp before _ _ _ (
      the-Returns stamp before _ _ _ (λ owner known.
        pure-Returns stamp before _ _ _ (λ clean checked. record {
          apply = λ value after h.
              let (rows, e, p) =
                put-eq-ok (λ rows. record before { signals = rows }) _ value after h in
              rw p (
                insert_signal-IsLedger stamp before _ _ value rows e i (λ new. record {
                  owner = owner;
                  member = find?-Memᴰ _ before.candidates owner known;
                  identity =
                      (eq_iff owner.content.candidate_id given.candidate_id).0
                        (find?-test _ before.candidates owner known)
                      ∙ sym (clean_signal-candidate_id given clean checked);
                  chain = refl;
                  token = refl;
                }));
        })))

is_some-true {ℓ} : {A : Type ℓ} (o : Option A) → is_some o ≡ true → (a : A) × (o ≡ some a)
is_some-true none h = absurd (ground arith)
is_some-true (some a) h = (a, refl)

module _ (stamp : Stamp) (before : Tables) where
  require_historical-Returns :
      (values : EntryDecision) (key : Option String) (basis : Stored CurrentSignal)
      → AreKeyed before.signals
      → Memᴰ basis before.signals
      → has_key values.signal_id basis ≡ true
      → Returns stamp before
          (require_historical key values)
          (λ done after. Precedes before basis values.decided_at key)
  unfolding require_historical signal is_eligible
  require_historical-Returns values none basis keys m b = give-Returns stamp before _ tt tt
  require_historical-Returns values (some key) basis keys m b = select-Returns stamp before _ _ _ (
      the-Returns stamp before _ _ _ (λ current found. select-Returns stamp before _ _ _ (
        the-Returns stamp before _ _ _ (λ active newest.
          require-Returns stamp before _ _ _ _ (λ same. select-Returns stamp before _ _ _ (
            last-Returns stamp before _ _ _ (λ eligible.
              let (row, n, t) = any-Memᴰ _ before.evidence eligible in
              let is : current ≡ basis =
                AreKeyed-unique values.signal_id before.signals current basis keys
                  (find?-Memᴰ _ before.signals current found) m
                  ((&&-true _ _ (find?-test _ before.signals current found)).0) b in
              let (h, k) = &&-true _ _ t in
              (
                row,
                n,
                (eq_iff row.content.evidence_id key).0 k,
                is_historical-IsHistorical basis values.decided_at row
                    (subst (λ s. is_historical s values.decided_at row ≡ true) is h),
              ))))))))

  require_causal-Returns :
      (values : EntryDecision)
      → AreKeyed before.signals
      → Returns stamp before (require_causal values) (λ done after. IsCausal before values)
  unfolding require_causal candidate current_signal
  require_causal-Returns values keys = select-Returns stamp before _ _ _ (
      require-Returns stamp before _ _ _ _ (λ visible.
        let (owner, seen) = is_some-true _ visible in
        let (o, v) = &&-true _ _ (find?-test _ before.candidates owner seen) in
        select-Returns stamp before _ _ _ (
          the-Returns stamp before _ _ _ (λ basis newest.
            let (m, p) = latest-Memᴰ _ before.signals basis newest in
            let (c, w) = &&-true _ _ p in
            require-Returns stamp before _ _ _ _ (λ same. record {
              apply = λ done after h. record {
                owner = owner;
                owner_member = find?-Memᴰ _ before.candidates owner seen;
                owner_identity = (eq_iff _ _).0 o;
                owner_visible = (ground arith, ground arith);
                basis = basis;
                basis_member = m;
                basis_identity = (eq_iff _ _).0 same;
                basis_owner = (eq_iff _ _).0 c;
                basis_visible = (ground arith, ground arith);
                precedent =
                    (require_historical-Returns values values.kol_evidence_id basis keys m
                        same).apply
                      done after h;
              };
            })))))

pub add_decision-Returns :
    (stamp : Stamp) (before : Tables) (i : IsLedger before) (values : EntryDecision)
    → Returns stamp before (add_decision values) (λ value after. IsLedger after)
unfolding add_decision
add_decision-Returns stamp before i values =
    bind-Returns stamp before _ _ _ _ (insert_decision-Returns stamp before i values)
      (λ result middle pending.
        when_inserted-Returns stamp middle result _ (IsCausal middle values) _
          (require_causal-Keeps _ Same-Preorder values)
          (require_causal-Returns stamp middle values
            (subst (λ rows. AreKeyed rows) (sym pending.0) i.signal_keys))
          pending.2)
