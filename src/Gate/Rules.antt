-- ===== src/Gate/Rules.antt =====
-- `evaluate_narrative_gate` and `_integrity_reasons` (src/debot4/v6/narrative/gate.py). The digests
-- (`dossier_hash`, `canonical_sha256`) and `str.casefold` are parameters.
use debot.Base.{
  ℕ, String, Bool, true, false, ◌&&◌, ◌||◌, not, List, [], ◌∷◌, ◌++◌, Option, none, some, ltb, ◌==◌,
  str_eq, str_append, when, or_else, prefixed, unique,
}
use debot.Gate.Domain.{
  Readiness, GateStatus, ResearchStatus, is_token, is_exact_bsc_token, NarrativeDossier,
  ValuationView, CurrentWaveInput, CurrentWaveAssessment, CurrentSignalBoundary,
  NarrativeResearchResult, GatePolicy, NarrativeGateDecision,
}
use debot.Gate.Readiness.{ReadinessDecision, evaluate_readiness}
use debot.Gate.Wave.{assess_current_wave, gate_status}

abbrev pub gate_schema : String
gate_schema = "v6.live_narrative_gate.v1"

abbrev pub research_rejects : ResearchStatus → Bool
research_rejects ResearchStatus.reject = true
research_rejects _ = false

abbrev pub research_waits : ResearchStatus → Bool
research_waits ResearchStatus.wait = true
research_waits _ = false

abbrev pub narrative_rejects : Readiness → Bool
narrative_rejects Readiness.reject = true
narrative_rejects _ = false

abbrev pub narrative_passes : Readiness → Bool
narrative_passes Readiness.pass_to_execution = true
narrative_passes _ = false

abbrev pub is_reject : GateStatus → Bool
is_reject GateStatus.reject = true
is_reject _ = false

abbrev pub is_wait : GateStatus → Bool
is_wait GateStatus.wait = true
is_wait _ = false

abbrev pub is_pass : GateStatus → Bool
is_pass GateStatus.pass = true
is_pass _ = false

-- `if test: reasons.extend(items)`
abbrev pub extend_when : Bool → List String → List String
extend_when true items = items
extend_when false items = []

abbrev pub valuation_from_future : Option ValuationView → ℕ → Bool
valuation_from_future none cutoff = false
valuation_from_future (some view) cutoff = ltb cutoff view.as_of

-- the reasons for the signal that the research was made for
abbrev pub boundary_reasons : Option CurrentSignalBoundary → Option CurrentWaveInput → List String
boundary_reasons none wave = "research_current_signal_boundary_missing" ∷ []
boundary_reasons (some boundary) none = []
boundary_reasons (some boundary) (some wave) =
    when (not (str_eq wave.signal_identity boundary.signal_id))
      "current_wave_replaced_research_signal"
    ++ when
        (not (wave.provider_at == boundary.event_at)
          || not (wave.available_at == boundary.available_at))
        "current_wave_research_boundary_mismatch"

unfoldable pub integrity_reasons :
    NarrativeDossier
    → Option ValuationView
    → NarrativeResearchResult
    → Option CurrentWaveInput
    → (digest : String) (cutoff : ℕ) → List String
integrity_reasons dossier valuation research wave digest cutoff =
    when (not (is_exact_bsc_token dossier.token)) "unsupported_narrative_token"
    ++ when (ltb cutoff dossier.as_of) "dossier_from_future"
    ++ when (valuation_from_future valuation cutoff) "valuation_from_future"
    ++ when (not (is_token research.token dossier.token)) "research_token_mismatch"
    ++ when (ltb cutoff research.decision_time) "research_from_future"
    ++ when (not (research.decision_time == dossier.as_of)) "research_dossier_cutoff_mismatch"
    ++ when (not (str_eq research.dossier_hash digest)) "research_dossier_hash_mismatch"
    ++ when (not research.identity_valid) "research_identity_invalid"
    ++ boundary_reasons research.current_signal wave

unfoldable pub gate_rejects :
    List String → NarrativeResearchResult → ReadinessDecision → CurrentWaveAssessment → List String
gate_rejects integrity research narrative current =
    integrity
    ++ extend_when (research_rejects research.status) (prefixed "research:" research.reasons)
    ++ extend_when (narrative_rejects narrative.status) (prefixed "narrative:" narrative.reasons)
    ++ extend_when (is_reject current.status) current.reasons

abbrev pub is_proxy : Option String → Bool
is_proxy none = false
is_proxy (some kind) = str_eq kind "rank_kol_count_increase_proxy"

unfoldable pub gate_waits :
    GatePolicy → NarrativeResearchResult → ReadinessDecision → CurrentWaveAssessment → List String
gate_waits policy research narrative current =
    extend_when (research_waits research.status) (prefixed "research:" research.reasons)
    ++ extend_when (not (narrative_passes narrative.status))
        (prefixed "narrative:" narrative.reasons)
    ++ when (policy.require_historical_kol_evidence && not research.kol_qualified)
        "historical_kol_evidence_missing"
    ++ when (is_proxy research.kol_kind && not policy.allow_historical_kol_participation_proxy)
        "historical_kol_wallet_buy_missing"
    ++ extend_when (is_wait current.status) current.reasons

-- The dictionary whose digest is the identity of the decision.
pub record GateMaterial : Type 0 where
  pub decided_at : ℕ
  pub policy : GatePolicy
  pub dossier_hash : String
  pub valuation_hash : Option String
  pub research_identity : String
  pub research_hash : String
  pub current_wave : CurrentWaveAssessment
  pub status : GateStatus
  pub reasons : List String

-- The functions that the gate calls outside this model.
pub record Digests : Type 0 where
  pub casefold : String → String
  pub of_dossier : NarrativeDossier → String
  pub of_valuation : ValuationView → String
  pub of_gate : GateMaterial → String

abbrev pub valuation_hash : Digests → Option ValuationView → Option String
valuation_hash digests none = none
valuation_hash digests (some view) = some (digests.of_valuation view)

unfoldable pub evaluate_narrative_gate :
    Digests
    → NarrativeDossier
    → Option ValuationView
    → NarrativeResearchResult
    → Option CurrentWaveInput
    → (decided_at : ℕ) → GatePolicy
    → NarrativeGateDecision
evaluate_narrative_gate digests dossier valuation research wave decided_at policy =
    let narrative =
      evaluate_readiness dossier valuation
        (record { require_capital_confirmation = false; require_bounded_valuation = true }) in
    let current =
      assess_current_wave digests.casefold wave dossier.token decided_at
        policy.maximum_current_wave_age in
    let digest = digests.of_dossier dossier in
    let rejects =
      gate_rejects (integrity_reasons dossier valuation research wave digest decided_at) research
        narrative current in
    let waits = gate_waits policy research narrative current in
    let reasons = unique (or_else rejects (or_else waits ("v6_narrative_gate_passed" ∷ []))) in
    let status = gate_status rejects waits in
    let hash = digests.of_gate (record {
      decided_at = decided_at;
      policy = policy;
      dossier_hash = digest;
      valuation_hash = valuation_hash digests valuation;
      research_identity = research.identity;
      research_hash = research.identity_hash;
      current_wave = current;
      status = status;
      reasons = reasons;
    }) in
    record {
      status = status;
      decided_at = decided_at;
      reasons = reasons;
      narrative_readiness = narrative.status;
      research_status = research.status;
      kol_qualified = research.kol_qualified;
      current_wave = current;
      identity = str_append gate_schema (str_append ":" hash);
      identity_hash = hash;
      dossier_hash = digest;
      valuation_hash = valuation_hash digests valuation;
      kol_kind = research.kol_kind;
    }
