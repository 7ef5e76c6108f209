-- ===== src/Gate/Confirmed.antt =====
-- When a dossier is ready for execution (`evaluate_readiness`), and what its effective states rest on
-- (`effective_state`).
use debot.Base.{
  String, ◌≡◌, refl, Bool, true, false, ◌&&◌, not, List, [], ◌∷◌, Option, &&-true, sym, ◌∙◌, ap,
  arith, is_empty, is_empty-append, is_empty-when, is_empty-prefixed, every, ◌↔◌,
}
use debot.Gate.Domain.{FindingState, Dimension, NarrativeDossier, ValuationView}
use debot.Gate.Dossier.{effective_state, has_capital_confirmation}
use debot.Gate.Readiness.{
  ReadinessPolicy, evaluate_readiness, readiness_rejects, unresolved, readiness_waits, ranked,
  named, dimensions, hard, soft, is_contradicted, is_open, is_confirmed, is_supported,
  binding_contradicted, binding_open, is_resolved, in_decay, is_growing, is_overextended,
  is_bounded, is_later,
}
use debot.Gate.Rules.{narrative_passes}

pub record IsConfirmed (dossier : NarrativeDossier) (valuation : Option ValuationView)
    (policy : ReadinessPolicy) : Type 0 where
  pub never_contradicted :
      every (λ d. not (is_contradicted (effective_state dossier d))) dimensions ≡ true
  pub hard_confirmed : every (λ d. is_confirmed (effective_state dossier d)) hard ≡ true
  pub soft_supported : every (λ d. is_supported (effective_state dossier d)) soft ≡ true
  pub resolved : is_resolved dossier.canonicality ≡ true
  pub growing : is_growing dossier.stage ≡ true
  pub has_capital :
      policy.require_capital_confirmation ≡ true → has_capital_confirmation dossier ≡ true
  pub has_bounds : policy.require_bounded_valuation ≡ true → is_bounded valuation ≡ true
  pub not_overextended : is_overextended valuation ≡ false
  pub valued_in_time : is_later valuation dossier ≡ false
  pub nothing_fatal : is_empty dossier.fatal_unknowns ≡ true

passes_when_empty :
    (rs us ws : List String)
    → narrative_passes (ranked rs us ws).status ≡ (is_empty rs && (is_empty us && is_empty ws))
passes_when_empty (r ∷ rs) us ws = refl
passes_when_empty [] (u ∷ us) ws = refl
passes_when_empty [] [] (w ∷ ws) = refl
passes_when_empty [] [] [] = refl

is_empty-named :
    (dossier : NarrativeDossier) (test : FindingState → Bool) (label : String) (ds : List Dimension)
    → is_empty (named dossier test label ds)
      ≡ every (λ d. not (test (effective_state dossier d))) ds
is_empty-named dossier test label [] = refl
is_empty-named dossier test label (d ∷ ds) =
    simp (is_empty-append, is_empty-when, is_empty-named dossier test label ds) refl

not-not : (b : Bool) → not (not b) ≡ b
not-not true = refl
not-not false = refl

and_assoc : (a b c : Bool) → ((a && b) && c) ≡ (a && (b && c))
and_assoc true b c = refl
and_assoc false b c = refl

not-true : (b : Bool) → not b ≡ true → b ≡ false
not-true b h = ground arith

-- a conjunct that is wanted only if `wanted` holds
demand : (wanted given : Bool) → not (wanted && not given) ≡ true → wanted ≡ true → given ≡ true
demand wanted given h w = ground arith

demanded : (wanted given : Bool) → (wanted ≡ true → given ≡ true) → not (wanted && not given) ≡ true
demanded wanted given h = ground arith

both : (a b : Bool) → a ≡ true → b ≡ true → (a && b) ≡ true
both a b h k = ground arith

every_mono :
    (f g : Dimension → Bool) (ds : List Dimension)
    → ((d : Dimension) → f d ≡ true → g d ≡ true)
    → every f ds ≡ true
    → every g ds ≡ true
every_mono f g [] h e = refl
every_mono f g (d ∷ ds) h e =
    let split = &&-true (f d) (every f ds) e in both _ _ (h d split.0) (every_mono f g ds h split.1)

resolved_binding :
    (c : _) → is_resolved c ≡ true → (binding_contradicted c ≡ false) × (binding_open c ≡ false)
resolved_binding c h = ground arith

growing_stage : (s : _) → is_growing s ≡ true → in_decay s ≡ false
growing_stage s h = ground arith

confirmed_state : (s : FindingState) → is_confirmed s ≡ true → is_open s ≡ false
confirmed_state s h = ground arith

module _ (dossier : NarrativeDossier) (valuation : Option ValuationView)
    (policy : ReadinessPolicy) where
  rejects_lem : is_empty (readiness_rejects dossier valuation) ≡ (
      every (λ d. not (is_contradicted (effective_state dossier d))) dimensions
      && (not (binding_contradicted dossier.canonicality)
          && (not (in_decay dossier.stage) && not (is_overextended valuation))))
  unfolding readiness_rejects
  rejects_lem = simp (is_empty-append, is_empty-when) (simp and_assoc refl)

  unresolved_lem : is_empty (unresolved dossier) ≡ (
      every (λ d. not (is_open (effective_state dossier d))) hard
      && not (binding_open dossier.canonicality))
  unfolding unresolved
  unresolved_lem = simp (is_empty-append, is_empty-when) refl

  waits_lem : is_empty (readiness_waits dossier valuation policy) ≡ (
      every (λ d. is_confirmed (effective_state dossier d)) hard
      && (every (λ d. is_supported (effective_state dossier d)) soft
          && (is_resolved dossier.canonicality
              && (is_growing dossier.stage
                  && (not (
                        policy.require_capital_confirmation
                        && not (has_capital_confirmation dossier))
                      && (not (policy.require_bounded_valuation && not (is_bounded valuation))
                          && (not (is_later valuation dossier)
                              && is_empty dossier.fatal_unknowns)))))))
  unfolding readiness_waits
  waits_lem =
      simp (is_empty-append, is_empty-when, is_empty-prefixed, not-not) (simp and_assoc refl)

  -- no reason of any of the three kinds
  abbrev nothing_against : Bool
  nothing_against =
      is_empty (readiness_rejects dossier valuation)
      && (is_empty (unresolved dossier) && is_empty (readiness_waits dossier valuation policy))

  confirmed_of : nothing_against ≡ true → IsConfirmed dossier valuation policy
  confirmed_of h =
      let parts = &&-true _ _ h in
      let r0 = &&-true _ _ (sym rejects_lem ∙ parts.0) in
      let r1 = &&-true _ _ r0.1 in
      let r2 = &&-true _ _ r1.1 in
      let w0 = &&-true _ _ (sym waits_lem ∙ (&&-true _ _ parts.1).1) in
      let w1 = &&-true _ _ w0.1 in
      let w2 = &&-true _ _ w1.1 in
      let w3 = &&-true _ _ w2.1 in
      let w4 = &&-true _ _ w3.1 in
      let w5 = &&-true _ _ w4.1 in
      let w6 = &&-true _ _ w5.1 in
      record {
        never_contradicted = r0.0;
        hard_confirmed = w0.0;
        soft_supported = w1.0;
        resolved = w2.0;
        growing = w3.0;
        has_capital = demand _ _ w4.0;
        has_bounds = demand _ _ w5.0;
        not_overextended = not-true _ r2.1;
        valued_in_time = not-true _ w6.0;
        nothing_fatal = w6.1;
      }

  all_of : IsConfirmed dossier valuation policy → nothing_against ≡ true
  all_of h =
      let binding = resolved_binding dossier.canonicality h.resolved in
      both _ _
        (rejects_lem
          ∙ both _ _ h.never_contradicted (
              both _ _ (ap not binding.0) (
                both _ _ (ap not (growing_stage dossier.stage h.growing))
                  (ap not h.not_overextended))))
        (both _ _
          (unresolved_lem
            ∙ both _ _
                (every_mono _ _ hard (λ d c. ap not (confirmed_state (effective_state dossier d) c))
                  h.hard_confirmed)
                (ap not binding.1))
          (waits_lem
            ∙ both _ _ h.hard_confirmed (
                both _ _ h.soft_supported (
                  both _ _ h.resolved (
                    both _ _ h.growing (
                      both _ _ (demanded _ _ h.has_capital) (
                        both _ _ (demanded _ _ h.has_bounds)
                          (both _ _ (ap not h.valued_in_time) h.nothing_fatal))))))))

  -- A dossier passes to execution exactly when no dimension is contradicted, the hard dimensions are
  -- confirmed and the soft ones at least supported, its token binding is resolved, its stage is validation
  -- or expansion, the policy's demands for capital and for a bounded valuation are met, the valuation is
  -- neither overextended nor of a later instant, and no fatal unknown is left.
  pub ready-IsConfirmed :
      (narrative_passes (evaluate_readiness dossier valuation policy).status ≡ true)
      ↔ IsConfirmed dossier valuation policy
  unfolding evaluate_readiness
  ready-IsConfirmed =
      let split =
        passes_when_empty (readiness_rejects dossier valuation) (unresolved dossier)
          (readiness_waits dossier valuation policy) in
      (λ h. confirmed_of (sym split ∙ h), λ h. split ∙ all_of h)
