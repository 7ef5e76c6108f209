-- ===== src/Gate/Passing.antt =====
-- What holds when the narrative gate passes (`evaluate_narrative_gate`).
use debot.Base.{
  ℕ, String, ◌≡◌, refl, Bool, true, false, ◌&&◌, ◌||◌, not, List, [], ◌∷◌, Option, none, some,
  arith, is_empty, is_empty-append, is_empty-when, is_empty-prefixed, is_empty-unique,
  is_empty-or_else, Bool-cases, inl, inr, &&-true, ◌∙◌, sym,
}
use debot.Gate.Domain.{
  GateStatus, ResearchStatus, TokenRef, NarrativeDossier, ValuationView, CurrentWaveInput,
  CurrentWaveAssessment, NarrativeResearchResult, GatePolicy,
}
use debot.Gate.Readiness.{ReadinessPolicy, ReadinessDecision, evaluate_readiness, ranked}
use debot.Gate.Wave.{assess_current_wave}
use debot.Gate.Rules.{
  evaluate_narrative_gate, Digests, integrity_reasons, gate_rejects, gate_waits, extend_when,
  research_rejects, research_waits, narrative_rejects, narrative_passes, is_reject, is_wait,
  is_pass, is_proxy,
}
use debot.Gate.FreshWave.{IsFresh, passes_when_empty, passes-IsFresh}
use debot.Gate.Confirmed.{IsConfirmed, ready-IsConfirmed}
use debot.Gate.Bound.{IsBound, integrity-IsBound}

is_empty-extend_when :
    (b : Bool) (xs : List String) → is_empty (extend_when b xs) ≡ (not b || is_empty xs)
is_empty-extend_when true xs = refl
is_empty-extend_when false xs = refl

ranked_gives_reasons :
    (rs us ws : List String)
    → narrative_passes (ranked rs us ws).status ≡ false
    → is_empty (ranked rs us ws).reasons ≡ false
ranked_gives_reasons (r ∷ rs) us ws h = refl
ranked_gives_reasons [] (u ∷ us) ws h = refl
ranked_gives_reasons [] [] (w ∷ ws) h = refl
ranked_gives_reasons [] [] [] h = cc

readiness_gives_reasons :
    (dossier : NarrativeDossier) (valuation : Option ValuationView) (policy : ReadinessPolicy)
    → narrative_passes (evaluate_readiness dossier valuation policy).status ≡ false
    → is_empty (evaluate_readiness dossier valuation policy).reasons ≡ false
unfolding evaluate_readiness
readiness_gives_reasons dossier valuation policy h = ranked_gives_reasons _ _ _ h

wave_gives_reasons :
    (casefold : String → String) (wave : Option CurrentWaveInput) (token : TokenRef)
    (cutoff maximum_age : ℕ)
    → is_empty (assess_current_wave casefold wave token cutoff maximum_age).reasons ≡ false
unfolding assess_current_wave
wave_gives_reasons casefold none token cutoff maximum_age = refl
wave_gives_reasons casefold (some wave) token cutoff maximum_age =
    simp (is_empty-unique, is_empty-or_else) (ground arith)

rejects_lem :
    (integrity : List String) (research : NarrativeResearchResult) (narrative : ReadinessDecision)
    (current : CurrentWaveAssessment)
    → is_empty (gate_rejects integrity research narrative current) ≡ (
        is_empty integrity
        && (not (research_rejects research.status) || is_empty research.reasons)
        && (not (narrative_rejects narrative.status) || is_empty narrative.reasons)
        && (not (is_reject current.status) || is_empty current.reasons))
unfolding gate_rejects
rejects_lem integrity research narrative current =
    simp (is_empty-append, is_empty-extend_when, is_empty-prefixed) refl

waits_lem :
    (policy : GatePolicy) (research : NarrativeResearchResult) (narrative : ReadinessDecision)
    (current : CurrentWaveAssessment)
    → is_empty (gate_waits policy research narrative current) ≡ (
        (not (research_waits research.status) || is_empty research.reasons)
        && (not (not (narrative_passes narrative.status)) || is_empty narrative.reasons)
        && not (policy.require_historical_kol_evidence && not research.kol_qualified)
        && not (is_proxy research.kol_kind && not policy.allow_historical_kol_participation_proxy)
        && (not (is_wait current.status) || is_empty current.reasons))
unfolding gate_waits
waits_lem policy research narrative current =
    simp (is_empty-append, is_empty-extend_when, is_empty-when, is_empty-prefixed) refl

abbrev live_policy : ReadinessPolicy
live_policy = record { require_capital_confirmation = false; require_bounded_valuation = true }

-- All that a passing gate has checked.
pub record IsCleared (digests : Digests) (dossier : NarrativeDossier)
    (valuation : Option ValuationView) (research : NarrativeResearchResult)
    (wave : Option CurrentWaveInput) (cutoff : ℕ) (policy : GatePolicy) : Type 0 where
  pub input : CurrentWaveInput
  pub has_wave : wave ≡ some input
  pub is_bound : IsBound dossier valuation research input (digests.of_dossier dossier) cutoff
  pub is_fresh : IsFresh digests.casefold input dossier.token cutoff policy.maximum_current_wave_age
  pub is_confirmed : IsConfirmed dossier valuation live_policy
  pub research_ready : research.status ≡ ResearchStatus.ready
  pub kol_known : policy.require_historical_kol_evidence ≡ true → research.kol_qualified ≡ true
  pub kol_kind_allowed :
      is_proxy research.kol_kind ≡ true → policy.allow_historical_kol_participation_proxy ≡ true

ready_of :
    (s : ResearchStatus)
    → research_rejects s ≡ false
    → research_waits s ≡ false
    → s ≡ ResearchStatus.ready
ready_of s h k = ground arith

passing : (s : GateStatus) → is_reject s ≡ false → is_wait s ≡ false → is_pass s ≡ true
passing s h k = ground arith

-- One list of the gate is empty though its source gave reasons: the source is not of that kind.
silent : (said given : Bool) → given ≡ false → (not said || given) ≡ true → said ≡ false
silent said given h k = ground arith

module _ (digests : Digests) (dossier : NarrativeDossier) (valuation : Option ValuationView)
    (research : NarrativeResearchResult) (cutoff : ℕ) (policy : GatePolicy) where
  abbrev narrative : ReadinessDecision
  narrative = evaluate_readiness dossier valuation live_policy

  abbrev current : Option CurrentWaveInput → CurrentWaveAssessment
  current wave =
      assess_current_wave digests.casefold wave dossier.token cutoff policy.maximum_current_wave_age

  cleared :
      (wave : Option CurrentWaveInput)
      → is_empty research.reasons ≡ false
      → is_empty (
          gate_rejects
            (integrity_reasons dossier valuation research wave (digests.of_dossier dossier) cutoff)
            research
            narrative
            (current wave))
        ≡ true
      → is_empty (gate_waits policy research narrative (current wave)) ≡ true
      → IsCleared digests dossier valuation research wave cutoff policy
  unfolding assess_current_wave
  cleared none given r w =
      absurd (ground (arith, waits_lem policy research narrative (current none)))
  cleared (some wave) given r w =
      let spoke =
        wave_gives_reasons digests.casefold (some wave) dossier.token cutoff
          policy.maximum_current_wave_age in
      let r3 = &&-true _ _ (
        sym (
          rejects_lem
            (integrity_reasons dossier valuation research (some wave) (digests.of_dossier dossier)
              cutoff)
            research narrative (current (some wave)))
        ∙ r) in
      let r2 = &&-true _ _ r3.0 in
      let r1 = &&-true _ _ r2.0 in
      let w4 = &&-true _ _ (sym (waits_lem policy research narrative (current (some wave))) ∙ w) in
      let w3 = &&-true _ _ w4.0 in
      let w2 = &&-true _ _ w3.0 in
      let w1 = &&-true _ _ w2.0 in
      record {
        input = wave;
        has_wave = refl;
        is_bound =
            integrity-IsBound dossier valuation research wave (digests.of_dossier dossier) cutoff
              r1.0;
        is_fresh =
            (passes-IsFresh digests.casefold wave dossier.token cutoff
                policy.maximum_current_wave_age).0
              (passing _ (silent _ _ spoke r3.1) (silent _ _ spoke w4.1));
        is_confirmed =
            (ready-IsConfirmed dossier valuation live_policy).0
              (elim (Bool-cases (narrative_passes narrative.status)) [
                | inl met ↦ met
                | inr unmet ↦ absurd (
                    ground (
                      arith,
                      w1.1,
                      unmet,
                      readiness_gives_reasons dossier valuation live_policy unmet,
                    ))
              ]);
        research_ready = ready_of research.status (silent _ _ given r1.1) (silent _ _ given w1.0);
        kol_known = λ q. ground (arith, w2.1);
        kol_kind_allowed = λ q. ground (arith, w3.1);
      }

  -- For a research result that gives reasons, a gate that passes has checked everything: the wave is the
  -- one that the research was made for and is fresh, the dossier is confirmed and of the same token and
  -- instant, nothing is from after the decision, the research is ready, and the KOL evidence meets the
  -- policy.
  pub passes-IsCleared :
      (wave : Option CurrentWaveInput)
      → is_empty research.reasons ≡ false
      → is_pass
          (evaluate_narrative_gate digests dossier valuation research wave cutoff policy).status
        ≡ true
      → IsCleared digests dossier valuation research wave cutoff policy
  unfolding evaluate_narrative_gate
  passes-IsCleared wave given h =
      let split =
        passes_when_empty
          (gate_rejects
            (integrity_reasons dossier valuation research wave (digests.of_dossier dossier) cutoff)
            research narrative (current wave))
          (gate_waits policy research narrative (current wave)) in
      let parts = &&-true _ _ (sym split ∙ h) in cleared wave given parts.0 parts.1
