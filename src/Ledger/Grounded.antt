-- ===== src/Ledger/Grounded.antt =====
-- The facts that a row of the ledger rests on: they are about rows that were there before it, and stay.
use mathlib.Core.List.{Memᴰ}
use debot.Base.{ℕ, ◌+◌, ◌≤◌, ◌<◌, String, ◌≡◌, ◌≢◌, ◌⊎◌, Option, none, some, List, All}
use debot.Ledger.Settled.{ResultKeys}
use debot.Ledger.Schema.{
  Candidate, CurrentSignal, HistoricalKolEvidence, EntryDecision, BuyRow, ObservationRow,
  HeadSighting,
}
use debot.Ledger.Columns.{
  candidate_columns, signal_columns, evidence_columns, decision_columns, buy_columns,
  observation_columns, head_columns,
}
use debot.Ledger.Codec.{official_source, ranks_source}
use debot.Ledger.Outcomes.{hour_us}
use debot.Ledger.Transaction.{Stored, Tables, Stamp}
use debot.Ledger.Keys.{AreKeyed, Memᴰ-Extends}
use debot.Ledger.Growth.{Grows}

-- A signal is of a candidate that is there, and has its chain and token.
pub record HasCandidate (t : Tables) (s : CurrentSignal) : Type 0 where
  pub owner : Stored Candidate
  pub member : Memᴰ owner t.candidates
  pub identity : owner.content.candidate_id ≡ s.candidate_id
  pub chain : owner.content.chain ≡ s.chain
  pub token : owner.content.token_address ≡ s.token_address

-- KOL evidence for the token of a signal from an allowed source, about another signal; it is of an earlier
-- event, was known and qualified before the signal was available, and committed before it.
pub record IsHistorical (signal : Stored CurrentSignal) (decided : ℕ)
    (row : Stored HistoricalKolEvidence) : Type 0 where
  pub chain : row.content.chain ≡ signal.content.chain
  pub token : row.content.token_address ≡ signal.content.token_address
  pub source : (row.content.source ≡ official_source) ⊎ (row.content.source ≡ ranks_source)
  pub other : row.content.signal_id ≢ signal.content.signal_id
  pub event : row.content.event_at < signal.content.event_at
  pub available : row.content.available_at < signal.content.available_at
  pub qualified : row.content.qualified_at < signal.content.available_at
  pub committed : row.commit_seq < signal.commit_seq
  pub visible : row.inserted_at ≤ decided

-- The evidence that a decision names, if it names one.
abbrev pub Precedes : Tables → Stored CurrentSignal → ℕ → Option String → Type 0
Precedes t signal decided none = Unit
Precedes t signal decided (some key) =
    (row : Stored HistoricalKolEvidence) × Memᴰ row t.evidence
    × (row.content.evidence_id ≡ key)
    × IsHistorical signal decided row

-- A decision rests on a candidate and a signal of it that were available and inserted by the instant of
-- the decision, and on historical evidence.
pub record IsCausal (t : Tables) (d : EntryDecision) : Type 0 where
  pub owner : Stored Candidate
  pub owner_member : Memᴰ owner t.candidates
  pub owner_identity : owner.content.candidate_id ≡ d.candidate_id
  pub owner_visible :
      (owner.content.available_at ≤ d.decided_at) × (owner.inserted_at ≤ d.decided_at)
  pub basis : Stored CurrentSignal
  pub basis_member : Memᴰ basis t.signals
  pub basis_identity : basis.content.signal_id ≡ d.signal_id
  pub basis_owner : basis.content.candidate_id ≡ d.candidate_id
  pub basis_visible :
      (basis.content.available_at ≤ d.decided_at) × (basis.inserted_at ≤ d.decided_at)
  pub precedent : Precedes t basis d.decided_at d.kol_evidence_id

-- A buy rests on a decision to buy the same candidate on the same signal, which was not after it.
pub record IsBought (t : Tables) (b : BuyRow) : Type 0 where
  pub decision : Stored EntryDecision
  pub member : Memᴰ decision t.decisions
  pub identity : decision.content.decision_id ≡ b.decision_id
  pub status : decision.content.status ≡ "buy"
  pub candidate : decision.content.candidate_id ≡ b.candidate_id
  pub signal : decision.content.signal_id ≡ b.signal_id
  pub decided : decision.content.decided_at ≤ b.executed_at

-- An observation is of a buy that is there, within its hour, and not of a block before the entry block.
pub record IsInHour (t : Tables) (o : ObservationRow) : Type 0 where
  pub bought : Stored BuyRow
  pub member : Memᴰ bought t.buys
  pub identity : bought.content.buy_id ≡ o.buy_id
  pub after_entry : bought.content.executed_at ≤ o.observed_at
  pub within : o.observed_at ≤ bought.content.executed_at + hour_us
  pub block : bought.content.block_number ≤ o.block_number

-- A head sighting is of a block that was observed for its buy.
pub record IsOnBlock (t : Tables) (h : HeadSighting) : Type 0 where
  pub observed : Stored ObservationRow
  pub member : Memᴰ observed t.observations
  pub buy : observed.content.buy_id ≡ h.buy_id
  pub number : observed.content.block_number ≡ h.block_number
  pub hash : observed.content.block_hash ≡ h.block_hash

abbrev pub AllRows : {A : Type 0} → (A → Type 0) → List (Stored A) → Type 0
AllRows P rows = All (λ row. P row.content) rows

-- The invariant of the ledger: keys are unique, and signals, decisions, buys, observations and head sightings
-- are grounded.
pub record IsLedger (t : Tables) : Type 0 where
  pub candidate_keys : AreKeyed t.candidates
  pub signal_keys : AreKeyed t.signals
  pub evidence_keys : AreKeyed t.evidence
  pub decision_keys : AreKeyed t.decisions
  pub buy_keys : AreKeyed t.buys
  pub observation_keys : AreKeyed t.observations
  pub head_keys : AreKeyed t.heads
  pub result_keys : ResultKeys t.results
  pub signals : AllRows (HasCandidate t) t.signals
  pub decisions : AllRows (IsCausal t) t.decisions
  pub buys : AllRows (IsBought t) t.buys
  pub observations : AllRows (IsInHour t) t.observations
  pub heads : AllRows (IsOnBlock t) t.heads

module _ (stamp : Stamp) (t t' : Tables) (g : Grows stamp t t') where
  pub HasCandidate-Grows : (s : CurrentSignal) → HasCandidate t s → HasCandidate t' s
  HasCandidate-Grows s h = record {
    owner = h.owner;
    member = Memᴰ-Extends _ _ _ _ g.candidates h.member;
    identity = h.identity;
    chain = h.chain;
    token = h.token;
  }

  Precedes-Grows :
      (basis : Stored CurrentSignal) (decided : ℕ) (key : Option String)
      → Precedes t basis decided key
      → Precedes t' basis decided key
  Precedes-Grows basis decided none h = tt
  Precedes-Grows basis decided (some key) (row, m, i, h) =
      (row, Memᴰ-Extends _ _ _ _ g.evidence m, i, h)

  pub IsCausal-Grows : (d : EntryDecision) → IsCausal t d → IsCausal t' d
  IsCausal-Grows d h = record {
    owner = h.owner;
    owner_member = Memᴰ-Extends _ _ _ _ g.candidates h.owner_member;
    owner_identity = h.owner_identity;
    owner_visible = h.owner_visible;
    basis = h.basis;
    basis_member = Memᴰ-Extends _ _ _ _ g.signals h.basis_member;
    basis_identity = h.basis_identity;
    basis_owner = h.basis_owner;
    basis_visible = h.basis_visible;
    precedent = Precedes-Grows h.basis d.decided_at d.kol_evidence_id h.precedent;
  }

  pub IsBought-Grows : (b : BuyRow) → IsBought t b → IsBought t' b
  IsBought-Grows b h = record {
    decision = h.decision;
    member = Memᴰ-Extends _ _ _ _ g.decisions h.member;
    identity = h.identity;
    status = h.status;
    candidate = h.candidate;
    signal = h.signal;
    decided = h.decided;
  }

  pub IsInHour-Grows : (o : ObservationRow) → IsInHour t o → IsInHour t' o
  IsInHour-Grows o h = record {
    bought = h.bought;
    member = Memᴰ-Extends _ _ _ _ g.buys h.member;
    identity = h.identity;
    after_entry = h.after_entry;
    within = h.within;
    block = h.block;
  }

  pub IsOnBlock-Grows : (h : HeadSighting) → IsOnBlock t h → IsOnBlock t' h
  IsOnBlock-Grows h o = record {
    observed = o.observed;
    member = Memᴰ-Extends _ _ _ _ g.observations o.member;
    buy = o.buy;
    number = o.number;
    hash = o.hash;
  }
