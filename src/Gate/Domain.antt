-- ===== src/Gate/Domain.antt =====
-- The enumerations and records of src/debot4/v6/narrative/domain.py, evidence.py, valuation.py,
-- gate_models.py, models.py and results.py, as their constructors leave them. Instants are
-- microseconds.
use debot.Base.{ℕ, String, Bool, true, false, ◌&&◌, List, Option, leb, str_eq, not}
use debot.Base.Int.{ℤ}
use debot.Entry.Models.{is_bsc_address}

pub data Readiness : Type 0 where
  pass_to_execution wait reject unresolved : Readiness

pub data FindingState : Type 0 where
  confirmed supported speculative contradicted unknown : FindingState

pub data Dimension : Type 0 where
  origin legitimacy propagation cultural_fit catalysts : Dimension
  leader_competition consensus_stage valuation_anchor invalidation : Dimension

pub data Canonicality : Type 0 where
  official_exact_ca creator_claimed community_consensus provisional_leader : Canonicality
  open_race contradicted unknown : Canonicality

pub data ConsensusStage : Type 0 where
  latent discovery validation expansion saturation decay revival unresolved : ConsensusStage

pub data EvidenceRole : Type 0 where
  origin token_binding narrative_binding propagation cultural_context : EvidenceRole
  catalyst leader_competition valuation counter_evidence capital_confirmation : EvidenceRole

pub data EvidenceSource : Type 0 where
  primary_actor official_site onchain kol community scanner market_data debot_feed : EvidenceSource

pub data EvidenceScope : Type 0 where
  live_eligible replay_eligible postmortem_only : EvidenceScope

pub data ValuationStatus : Type 0 where
  bounded unsupported overextended unresolved : ValuationStatus

pub data GateStatus : Type 0 where
  pass wait reject : GateStatus

pub data ResearchStatus : Type 0 where
  ready wait reject : ResearchStatus

-- `Dimension.value`
abbrev pub dimension_value : Dimension → String
dimension_value Dimension.origin = "origin"
dimension_value Dimension.legitimacy = "legitimacy"
dimension_value Dimension.propagation = "propagation"
dimension_value Dimension.cultural_fit = "cultural_fit"
dimension_value Dimension.catalysts = "catalysts"
dimension_value Dimension.leader_competition = "leader_competition"
dimension_value Dimension.consensus_stage = "consensus_stage"
dimension_value Dimension.valuation_anchor = "valuation_anchor"
dimension_value Dimension.invalidation = "invalidation"

-- `ConsensusStage.value`
abbrev pub stage_value : ConsensusStage → String
stage_value ConsensusStage.latent = "latent"
stage_value ConsensusStage.discovery = "discovery"
stage_value ConsensusStage.validation = "validation"
stage_value ConsensusStage.expansion = "expansion"
stage_value ConsensusStage.saturation = "saturation"
stage_value ConsensusStage.decay = "decay"
stage_value ConsensusStage.revival = "revival"
stage_value ConsensusStage.unresolved = "unresolved"

abbrev pub is_dimension : Dimension → Dimension → Bool
is_dimension Dimension.origin Dimension.origin = true
is_dimension Dimension.legitimacy Dimension.legitimacy = true
is_dimension Dimension.propagation Dimension.propagation = true
is_dimension Dimension.cultural_fit Dimension.cultural_fit = true
is_dimension Dimension.catalysts Dimension.catalysts = true
is_dimension Dimension.leader_competition Dimension.leader_competition = true
is_dimension Dimension.consensus_stage Dimension.consensus_stage = true
is_dimension Dimension.valuation_anchor Dimension.valuation_anchor = true
is_dimension Dimension.invalidation Dimension.invalidation = true
is_dimension _ _ = false

abbrev pub is_capital : EvidenceRole → Bool
is_capital EvidenceRole.capital_confirmation = true
is_capital _ = false

pub record TokenRef : Type 0 where
  pub chain : String
  pub address : String

abbrev pub is_token : TokenRef → TokenRef → Bool
is_token a b = str_eq a.chain b.chain && str_eq a.address b.address

-- `is_exact_bsc_token`
unfoldable pub is_exact_bsc_token : TokenRef → Bool
is_exact_bsc_token token = str_eq token.chain "bsc" && is_bsc_address token.address

pub record DimensionFinding : Type 0 where
  pub dimension : Dimension
  pub state : FindingState
  pub supports : List String
  pub contradicts : List String

pub record EvidenceItem : Type 0 where
  pub evidence_id : String
  pub source : EvidenceSource
  pub role : EvidenceRole
  pub published_at : ℕ
  pub first_seen_at : ℕ
  pub captured_at : ℕ
  pub token_address : String
  pub exact_ca : Bool
  pub scope : EvidenceScope

abbrev pub is_postmortem : EvidenceScope → Bool
is_postmortem EvidenceScope.postmortem_only = true
is_postmortem _ = false

-- `EvidenceItem.usable_at`
unfoldable pub usable_at : EvidenceItem → ℕ → Bool
usable_at item cutoff =
    not (is_postmortem item.scope)
    && leb item.published_at cutoff
    && leb item.first_seen_at cutoff
    && leb item.captured_at cutoff

pub record NarrativeDossier : Type 0 where
  pub token : TokenRef
  pub as_of : ℕ
  pub thesis : String
  pub canonicality : Canonicality
  pub stage : ConsensusStage
  pub evidence : List EvidenceItem
  pub findings : List DimensionFinding
  pub fatal_unknowns : List String

pub record ValuationView : Type 0 where
  pub as_of : ℕ
  pub status : ValuationStatus

pub record CurrentWaveInput : Type 0 where
  pub token_address : String
  pub group : String
  pub signal_identity : String
  pub provider_at : ℕ
  pub available_at : ℕ
  pub assessed_at : ℕ
  pub qualified : Bool
  pub security_passed : Bool
  pub evidence_quality : String
  pub chain_verified : Bool
  pub reasons : List String

pub record CurrentWaveAssessment : Type 0 where
  pub status : GateStatus
  pub reasons : List String
  pub wave : Option CurrentWaveInput
  pub age : Option ℤ
  pub maximum_age : ℕ

pub record CurrentSignalBoundary : Type 0 where
  pub signal_id : String
  pub event_at : ℕ
  pub available_at : ℕ

-- What the gate reads of a `NarrativeResearchResult`; `identity_valid` is its property of that name.
pub record NarrativeResearchResult : Type 0 where
  pub status : ResearchStatus
  pub reasons : List String
  pub decision_time : ℕ
  pub token : TokenRef
  pub kol_qualified : Bool
  pub kol_kind : Option String
  pub current_signal : Option CurrentSignalBoundary
  pub identity : String
  pub identity_hash : String
  pub dossier_hash : String
  pub identity_valid : Bool

pub record GatePolicy : Type 0 where
  pub require_historical_kol_evidence : Bool
  pub allow_historical_kol_participation_proxy : Bool
  pub maximum_current_wave_age : ℕ

pub record NarrativeGateDecision : Type 0 where
  pub status : GateStatus
  pub decided_at : ℕ
  pub reasons : List String
  pub narrative_readiness : Readiness
  pub research_status : ResearchStatus
  pub kol_qualified : Bool
  pub current_wave : CurrentWaveAssessment
  pub identity : String
  pub identity_hash : String
  pub dossier_hash : String
  pub valuation_hash : Option String
  pub kol_kind : Option String
