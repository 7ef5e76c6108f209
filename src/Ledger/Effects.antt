-- ===== src/Ledger/Effects.antt =====
-- The effect of a call on the ledger, and of a history, for a relation that every method's transaction
-- keeps.
use debot.Base.{
  ℕ, String, false, ◌≡◌, refl, Option, Result, ok, err, Error, List, [], ◌∷◌, Bool-cases, inl, inr,
}
use debot.Ledger.Schema.{Candidate, CurrentSignal, EntryDecision, BuyRow, ObservationRow}
use debot.Ledger.Codec.{Python}
use debot.Ledger.Transaction.{Tables, Store, Tx, write, stamp_of, close, ending}
use debot.Ledger.Service.{
  candidate_with_signal, canonical_observation, simulated_buy, transact, record_candidate,
  record_current_signal, record_candidate_with_signal, record_kol_evidence, record_entry_decision,
  commit_simulated_buy, record_block_observation, record_head_sighting,
  commit_canonical_observation, finalize_one_hour,
}
use debot.Ledger.Requests.{
  Request, candidate_call, signal_call, discovery_call, evidence_call, decision_call, buy_call,
  observation_call, head_call, canonical_call, finalize_call, close_call, answer, run, leaves,
}
use debot.Ledger.Keeps.{Relation, Keeps, Methods, steps}

-- A call that raises leaves the ledger as it was; `close` closes it; any other call that returns has
-- related the tables in one transaction, and added its commit.
pub data Effect (R : Relation) (store : Store) (result : Result (Unit {0}) × Store) : Type 0 where
  raised : (error : Error) → result ≡ (err error, store) → Effect R store result
  closed : result ≡ (ok tt, close store) → Effect R store result
  committed :
      (raw : ℕ) (after : Tables)
      → store.closed ≡ false
      → R (stamp_of raw store.commits) store.tables after
      → result ≡ (
        ok tt,
        record store { tables = after; commits = (stamp_of raw store.commits).now ∷ store.commits },
      )
      → Effect R store result

module _ (R : Relation) (m : Methods R) where
  abbrev Affects : {A : Type 0} → Result A × Store → Store → Type 0
  Affects result store = Effect R store (leaves result)

  ending-Effect :
      {A : Type 0} (raw : ℕ) (store : Store) (r : Result (A × Tables))
      → store.closed ≡ false
      → ((value : A) (after : Tables)
          → r ≡ ok (value, after)
          → R (stamp_of raw store.commits) store.tables after)
      → Affects (ending (stamp_of raw store.commits) store r) store
  ending-Effect raw store (err error) o h = raised error refl
  ending-Effect raw store (ok (value, after)) o h = committed raw after o (h value after refl) refl

  write-Effect :
      {A : Type 0} (raw : ℕ) (body : Tx A) (store : Store)
      → Keeps R body
      → Affects (write raw body store) store
  unfolding write
  write-Effect raw body store k = elim (Bool-cases store.closed) [
    | inl shut ↦ simp shut (raised _ refl)
    | inr opened ↦ simp opened (
        ending-Effect raw store (body (stamp_of raw store.commits) store.tables) opened
          (k.apply (stamp_of raw store.commits) store.tables))
  ]

  transact-Effect :
      {V A : Type 0} (checks : Result V) (body : V → Tx A) (raw : ℕ) (store : Store)
      → ((v : V) → Keeps R (body v))
      → Affects (transact checks body raw store) store
  transact-Effect (err error) body raw store k = raised error refl
  transact-Effect (ok v) body raw store k = write-Effect raw (body v) store (k v)

  candidate_with_signal-Keeps :
      (python : Python) (given : Candidate) (signal : CurrentSignal)
      → Keeps R (candidate_with_signal python given signal)
  unfolding candidate_with_signal
  candidate_with_signal-Keeps python given signal =
      search (steps, m.preorder, m.candidates, m.signals) depth 16

  canonical_observation-Keeps :
      (python : Python) (given : ObservationRow) (sighted available : Option ℕ)
      → Keeps R (canonical_observation python given sighted available)
  unfolding canonical_observation
  canonical_observation-Keeps python given sighted available =
      search (steps, m.preorder, m.observations, m.heads) depth 16

  simulated_buy-Keeps :
      (python : Python) (decided : EntryDecision) (bought : BuyRow) (parent : String)
      → Keeps R (simulated_buy python decided bought parent)
  unfolding simulated_buy
  simulated_buy-Keeps python decided bought parent =
      search (steps, m.preorder, m.decisions, m.buys, canonical_observation-Keeps) depth 16

  -- Every call has such an effect.
  pub answer-Effect :
      (python : Python) (request : Request) (store : Store)
      → Effect R store (answer python request store)
  unfolding answer record_candidate record_current_signal record_candidate_with_signal
      record_kol_evidence record_entry_decision commit_simulated_buy record_block_observation
      record_head_sighting commit_canonical_observation finalize_one_hour
  answer-Effect python (candidate_call clock raw given) store =
      transact-Effect _ _ raw store m.candidates
  answer-Effect python (signal_call clock raw given) store = transact-Effect _ _ raw store m.signals
  answer-Effect python (discovery_call raw given signal) store =
      write-Effect raw _ store (candidate_with_signal-Keeps python given signal)
  answer-Effect python (evidence_call clock raw given metadata) store =
      transact-Effect _ _ raw store m.evidence
  answer-Effect python (decision_call clock raw given) store =
      transact-Effect _ _ raw store m.decisions
  answer-Effect python (buy_call raw decided bought parent) store =
      write-Effect raw _ store (simulated_buy-Keeps python decided bought parent)
  answer-Effect python (observation_call clock raw given) store =
      transact-Effect _ _ raw store m.observations
  answer-Effect python (head_call clock raw given) store = transact-Effect _ _ raw store m.heads
  answer-Effect python (canonical_call raw given sighted available) store =
      write-Effect raw _ store (canonical_observation-Keeps python given sighted available)
  answer-Effect python (finalize_call clock raw buy_id w) store =
      transact-Effect _ _ raw store (λ identity. m.results python identity w)
  answer-Effect python close_call store = closed refl

  -- What a call that closes keeps, and a commit that relates the tables keeps, a history keeps.
  pub run-keeps :
      (python : Python) (I : Store → Type 0)
      → ((store : Store) → I store → I (close store))
      → ((store : Store) (raw : ℕ) (after : Tables)
          → I store
          → R (stamp_of raw store.commits) store.tables after
          → I (record store {
            tables = after;
            commits = (stamp_of raw store.commits).now ∷ store.commits;
          }))
      → (requests : List Request) (store : Store) → I store
      → I (run python requests store)
  unfolding run
  run-keeps python I shut commit [] store i = i
  run-keeps python I shut commit (request ∷ requests) store i =
      run-keeps python I shut commit requests (answer python request store).1
        (kept (answer-Effect python request store))
    where
      kept : Effect R store (answer python request store) → I (answer python request store).1
      kept (raised error e) = rw e i
      kept (closed e) = rw e (shut store i)
      kept (committed raw after o r e) = rw e (commit store raw after i r)
