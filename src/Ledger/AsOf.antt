-- ===== src/Ledger/AsOf.antt =====
-- What is read from the ledger as of an instant, after a history.
use debot.Base.{
  ℕ, ◌≤◌, String, Bool, false, ◌≡◌, refl, ap, Option, none, some, List, [], ◌∷◌, ◌++◌, map, arith,
  All, find?, any, satisfying, leb, Bool-cases, inl, inr, str_eq,
}
use debot.Ledger.Schema.{CurrentSignal, HeadSighting, ObservationRow}
use debot.Ledger.Columns.{candidate_columns, signal_columns, evidence_columns}
use debot.Ledger.Codec.{Python}
use debot.Ledger.Outcomes.{
  SimulatedBuy, canonical_path, visible, by_hash, start_at, BlockObservation,
}
use debot.Ledger.Transaction.{Stored, Tables, Store, newest}
use debot.Ledger.Reads.{candidate, signal, current_signal, is_eligible, latest}
use debot.Ledger.Settlement.{path_of, latest_head, is_head, observation_view}
use debot.Ledger.Requests.{Request, run}
use debot.Ledger.History.{Ahead, IsLater, run-Ahead}

-- The readings as of `cutoff` are the same.
pub record SameAsOf (cutoff : ℕ) (before after : Tables) : Type 0 where
  pub candidates : (key : String) → candidate key cutoff after ≡ candidate key cutoff before
  pub signals : (key : String) → signal key cutoff after ≡ signal key cutoff before
  pub currents : (key : String) → current_signal key cutoff after ≡ current_signal key cutoff before
  pub eligible :
      (current : Stored CurrentSignal) (key : String)
      → is_eligible current cutoff key after ≡ is_eligible current cutoff key before
  pub paths : (bought : SimulatedBuy) → path_of after cutoff bought ≡ path_of before cutoff bought

module _ {A : Type 0} (test : A → Bool) where
  abbrev Fails : A → Type 0
  Fails a = test a ≡ false

  find?-none : (ys : List A) → All Fails ys → find? test ys ≡ none
  find?-none [] h = refl
  find?-none (y ∷ ys) h = rw h.0 (find?-none ys h.1)

  find?-append : (xs ys : List A) → All Fails ys → find? test (xs ++ ys) ≡ find? test xs
  find?-append [] ys h = find?-none ys h
  find?-append (x ∷ xs) ys h = rw (find?-append xs ys h) refl

  any-none : (ys : List A) → All Fails ys → any test ys ≡ false
  any-none [] h = refl
  any-none (y ∷ ys) h = rw h.0 (any-none ys h.1)

  any-append : (xs ys : List A) → All Fails ys → any test (xs ++ ys) ≡ any test xs
  any-append [] ys h = any-none ys h
  any-append (x ∷ xs) ys h = rw (any-append xs ys h) refl

module _ (test : Stored CurrentSignal → Bool) where
  latest-none :
      (ys : List (Stored CurrentSignal)) → All (λ y. test y ≡ false) ys → latest test ys ≡ none
  latest-none [] h = refl
  latest-none (y ∷ ys) h = rw h.0 (latest-none ys h.1)

  latest-append :
      (xs ys : List (Stored CurrentSignal))
      → All (λ y. test y ≡ false) ys
      → latest test (xs ++ ys) ≡ latest test xs
  latest-append [] ys h = latest-none ys h
  latest-append (x ∷ xs) ys h = rw (latest-append xs ys h) refl

module _ (test : Stored HeadSighting → Bool) where
  latest_head-none :
      (ys : List (Stored HeadSighting)) → All (λ y. test y ≡ false) ys → latest_head test ys ≡ none
  latest_head-none [] h = refl
  latest_head-none (y ∷ ys) h = rw h.0 (latest_head-none ys h.1)

  latest_head-append :
      (xs ys : List (Stored HeadSighting))
      → All (λ y. test y ≡ false) ys
      → latest_head test (xs ++ ys) ≡ latest_head test xs
  latest_head-append [] ys h = latest_head-none ys h
  latest_head-append (x ∷ xs) ys h = rw (latest_head-append xs ys h) refl

-- The path depends on the observations that are visible at the cutoff.
canonical_path-visible :
    (bought : SimulatedBuy) (head : Option String) (xs ys : List BlockObservation) (cutoff : ℕ)
    → visible cutoff xs ≡ visible cutoff ys
    → canonical_path bought head xs cutoff ≡ canonical_path bought head ys cutoff
unfolding canonical_path
canonical_path-visible bought none xs ys cutoff e = refl
canonical_path-visible bought (some hash) xs ys cutoff e =
    ap (λ (os : List BlockObservation). start_at bought os (by_hash os hash)) e

module _ (bound cutoff : ℕ) (within : cutoff ≤ bound) where
  -- A row that was inserted after `bound` is not visible at the cutoff.
  unseen : {A : Type 0} (row : Stored A) → IsLater bound row → leb row.inserted_at cutoff ≡ false
  unseen row h = ground arith

  none_passes :
      {A : Type 0} (test : Stored A → Bool)
      → ((row : Stored A) → leb row.inserted_at cutoff ≡ false → test row ≡ false)
      → (ys : List (Stored A)) → All (IsLater bound) ys
      → All (λ y. test y ≡ false) ys
  none_passes test asks [] h = tt
  none_passes test asks (y ∷ ys) h = (asks y (unseen y h.0), none_passes test asks ys h.1)

  -- The visible observations of a buy.
  visible_later :
      (bought : SimulatedBuy) (ys : List (Stored ObservationRow))
      → All (IsLater bound) ys
      → visible cutoff
          (map observation_view (satisfying (λ row. str_eq row.content.buy_id bought.buy_id) ys))
        ≡ []
  visible_later bought [] h = refl
  visible_later bought (y ∷ ys) h = elim (Bool-cases (str_eq y.content.buy_id bought.buy_id)) [
    | inl own ↦ rw own (ground (arith, unseen y h.0, visible_later bought ys h.1))
    | inr other ↦ rw other (visible_later bought ys h.1)
  ]

  visible_append :
      (bought : SimulatedBuy) (xs ys : List (Stored ObservationRow))
      → All (IsLater bound) ys
      → visible cutoff (
          map observation_view
            (satisfying (λ row. str_eq row.content.buy_id bought.buy_id) (xs ++ ys)))
        ≡ visible cutoff
            (map observation_view (satisfying (λ row. str_eq row.content.buy_id bought.buy_id) xs))
  visible_append bought [] ys h = visible_later bought ys h
  visible_append bought (x ∷ xs) ys h = elim (Bool-cases (str_eq x.content.buy_id bought.buy_id)) [
    | inl own ↦ rw (own, visible_append bought xs ys h) refl
    | inr other ↦ rw (other, visible_append bought xs ys h) refl
  ]

  -- Where the tables are ahead of the cutoff, the readings are the same.
  Ahead-SameAsOf : (before after : Tables) → Ahead bound before after → SameAsOf cutoff before after
  unfolding candidate signal current_signal is_eligible path_of
  Ahead-SameAsOf before after a = record {
    candidates = λ key. rw a.candidates.behind (
        find?-append _ before.candidates a.candidates.added
          (none_passes _ (λ row h. ground (arith, h)) a.candidates.added a.candidates.each));
    signals = λ key. rw a.signals.behind (
        find?-append _ before.signals a.signals.added
          (none_passes _ (λ row h. ground (arith, h)) a.signals.added a.signals.each));
    currents = λ key. rw a.signals.behind (
        latest-append _ before.signals a.signals.added
          (none_passes _ (λ row h. ground (arith, h)) a.signals.added a.signals.each));
    eligible = λ current key. rw a.evidence.behind (
        any-append _ before.evidence a.evidence.added
          (none_passes _ (λ row h. ground (arith, h)) a.evidence.added a.evidence.each));
    paths = λ bought.
        rw
          (
            a.heads.behind,
            latest_head-append (is_head bought.buy_id cutoff) before.heads a.heads.added (
                none_passes (is_head bought.buy_id cutoff) (λ row h. ground (arith, h))
                  a.heads.added a.heads.each),
            a.observations.behind,
          )
          (canonical_path-visible bought _ _ _ cutoff
            (visible_append bought before.observations a.observations.added a.observations.each));
  }

-- What is read as of an instant that is not after the newest commit, a candidate, a signal, the current
-- signal, the eligible KOL evidence or the canonical path of a buy, is read the same after any history of
-- further calls.
pub run-SameAsOf :
    (python : Python) (requests : List Request) (store : Store) (bound cutoff : ℕ)
    → newest store.commits ≡ some bound
    → cutoff ≤ bound
    → SameAsOf cutoff store.tables (run python requests store).tables
run-SameAsOf python requests store bound cutoff h within =
    Ahead-SameAsOf bound cutoff within store.tables (run python requests store).tables
      (run-Ahead bound python requests store h)
