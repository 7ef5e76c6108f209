-- ===== src/Gate/Readiness.antt =====
-- `evaluate_readiness` (src/debot4/v6/narrative/readiness.py).
use debot.Base.{
  String, Bool, true, false, ◌&&◌, not, List, [], ◌∷◌, ◌++◌, Option, none, some, ltb, str_append,
  when, prefixed, unique,
}
use debot.Gate.Domain.{
  Readiness, FindingState, Dimension, Canonicality, ConsensusStage, ValuationStatus,
  NarrativeDossier, ValuationView, dimension_value, stage_value,
}
use debot.Gate.Dossier.{effective_state, has_capital_confirmation}

pub record ReadinessPolicy : Type 0 where
  pub require_capital_confirmation : Bool
  pub require_bounded_valuation : Bool

pub record ReadinessDecision : Type 0 where
  pub status : Readiness
  pub reasons : List String

-- `for dimension in Dimension`
abbrev pub dimensions : List Dimension
dimensions =
    Dimension.origin ∷ Dimension.legitimacy ∷ Dimension.propagation ∷ Dimension.cultural_fit
    ∷ Dimension.catalysts ∷ Dimension.leader_competition ∷ Dimension.consensus_stage
    ∷ Dimension.valuation_anchor ∷ Dimension.invalidation ∷ []

-- `_HARD`
abbrev pub hard : List Dimension
hard = Dimension.origin ∷ Dimension.legitimacy ∷ Dimension.leader_competition ∷ []

-- `_SOFT`
abbrev pub soft : List Dimension
soft =
    Dimension.propagation ∷ Dimension.cultural_fit ∷ Dimension.catalysts ∷ Dimension.consensus_stage
    ∷ []

abbrev pub is_contradicted : FindingState → Bool
is_contradicted FindingState.contradicted = true
is_contradicted _ = false

-- `in {UNKNOWN, SPECULATIVE}`
abbrev pub is_open : FindingState → Bool
is_open FindingState.unknown = true
is_open FindingState.speculative = true
is_open _ = false

abbrev pub is_confirmed : FindingState → Bool
is_confirmed FindingState.confirmed = true
is_confirmed _ = false

-- `in {CONFIRMED, SUPPORTED}`
abbrev pub is_supported : FindingState → Bool
is_supported FindingState.confirmed = true
is_supported FindingState.supported = true
is_supported _ = false

abbrev pub binding_contradicted : Canonicality → Bool
binding_contradicted Canonicality.contradicted = true
binding_contradicted _ = false

-- `in {OPEN_RACE, UNKNOWN}`
abbrev pub binding_open : Canonicality → Bool
binding_open Canonicality.open_race = true
binding_open Canonicality.unknown = true
binding_open _ = false

-- `in _RESOLVED`
abbrev pub is_resolved : Canonicality → Bool
is_resolved Canonicality.official_exact_ca = true
is_resolved Canonicality.creator_claimed = true
is_resolved Canonicality.community_consensus = true
is_resolved _ = false

abbrev pub in_decay : ConsensusStage → Bool
in_decay ConsensusStage.decay = true
in_decay _ = false

-- `in {VALIDATION, EXPANSION}`
abbrev pub is_growing : ConsensusStage → Bool
is_growing ConsensusStage.validation = true
is_growing ConsensusStage.expansion = true
is_growing _ = false

abbrev pub is_overextended : Option ValuationView → Bool
is_overextended none = false
is_overextended (some view) = elim view.status [ ValuationStatus.overextended ↦ true | _ ↦ false ]

abbrev pub is_bounded : Option ValuationView → Bool
is_bounded none = false
is_bounded (some view) = elim view.status [ ValuationStatus.bounded ↦ true | _ ↦ false ]

abbrev pub is_later : Option ValuationView → NarrativeDossier → Bool
is_later none dossier = false
is_later (some view) dossier = ltb dossier.as_of view.as_of

-- `[f"{dimension.value}{label}" for dimension in ds if test(states[dimension])]`
abbrev pub named : NarrativeDossier → (FindingState → Bool) → String → List Dimension → List String
named dossier test label [] = []
named dossier test label (d ∷ ds) =
    when (test (effective_state dossier d)) (str_append (dimension_value d) label)
    ++ named dossier test label ds

unfoldable pub readiness_rejects : NarrativeDossier → Option ValuationView → List String
readiness_rejects dossier valuation =
    named dossier is_contradicted "_contradicted" dimensions
    ++ when (binding_contradicted dossier.canonicality) "token_binding_contradicted"
    ++ when (in_decay dossier.stage) "narrative_in_decay"
    ++ when (is_overextended valuation) "valuation_overextended"

unfoldable pub unresolved : NarrativeDossier → List String
unresolved dossier =
    named dossier is_open "_unresolved" hard
    ++ when (binding_open dossier.canonicality) "canonical_token_unresolved"

unfoldable pub readiness_waits :
    NarrativeDossier → Option ValuationView → ReadinessPolicy → List String
readiness_waits dossier valuation policy =
    named dossier (λ s. not (is_confirmed s)) "_not_confirmed" hard
    ++ named dossier (λ s. not (is_supported s)) "_not_supported" soft
    ++ when (not (is_resolved dossier.canonicality)) "canonical_token_only_provisional"
    ++ when (not (is_growing dossier.stage))
        (str_append "consensus_stage:" (stage_value dossier.stage))
    ++ when (policy.require_capital_confirmation && not (has_capital_confirmation dossier))
        "missing_capital_confirmation"
    ++ when (policy.require_bounded_valuation && not (is_bounded valuation)) "valuation_not_bounded"
    ++ when (is_later valuation dossier) "valuation_not_available_at_decision"
    ++ prefixed "fatal_unknown:" dossier.fatal_unknowns

abbrev pub decision : Readiness → List String → ReadinessDecision
decision status reasons = record { status = status; reasons = unique reasons }

-- the first of the three lists of reasons that is not empty decides
abbrev pub ranked : List String → List String → List String → ReadinessDecision
ranked (r ∷ rs) us ws = decision Readiness.reject (r ∷ rs)
ranked [] (u ∷ us) ws = decision Readiness.unresolved (u ∷ us)
ranked [] [] (w ∷ ws) = decision Readiness.wait (w ∷ ws)
ranked [] [] [] = decision Readiness.pass_to_execution []

unfoldable pub evaluate_readiness :
    NarrativeDossier → Option ValuationView → ReadinessPolicy → ReadinessDecision
evaluate_readiness dossier valuation policy =
    ranked (readiness_rejects dossier valuation) (unresolved dossier)
      (readiness_waits dossier valuation policy)
