-- ===== src/Gate/Bound.antt =====
-- What the gate's integrity test asks for (`_integrity_reasons`).
use debot.Base.{
  ℕ, ◌≤◌, String, ◌≡◌, refl, true, false, ◌&&◌, ◌||◌, not, Option, none, some, arith, is_empty,
  is_empty-append, is_empty-when, ltb, ◌==◌, eq_iff, str_eq, &&-true, ◌∙◌, sym,
}
use debot.Gate.Domain.{
  is_token, is_exact_bsc_token, NarrativeDossier, ValuationView, CurrentWaveInput,
  CurrentSignalBoundary, NarrativeResearchResult,
}
use debot.Gate.Rules.{integrity_reasons, boundary_reasons, valuation_from_future}

-- The research is of the dossier's token and instant, and the wave is the one that it was made for.
pub record IsBound (dossier : NarrativeDossier) (valuation : Option ValuationView)
    (research : NarrativeResearchResult) (wave : CurrentWaveInput) (digest : String) (cutoff : ℕ)
    : Type 0 where
  pub token_ok : is_exact_bsc_token dossier.token ≡ true
  pub dossier_known : dossier.as_of ≤ cutoff
  pub valuation_known : valuation_from_future valuation cutoff ≡ false
  pub same_token : is_token research.token dossier.token ≡ true
  pub same_instant : research.decision_time ≡ dossier.as_of
  pub same_dossier : research.dossier_hash ≡ digest
  pub identity_ok : research.identity_valid ≡ true
  pub boundary : CurrentSignalBoundary
  pub has_boundary : research.current_signal ≡ some boundary
  pub same_signal : wave.signal_identity ≡ boundary.signal_id
  pub same_event : wave.provider_at ≡ boundary.event_at
  pub same_availability : wave.available_at ≡ boundary.available_at

integrity_lem :
    (dossier : NarrativeDossier) (valuation : Option ValuationView)
    (research : NarrativeResearchResult) (wave : Option CurrentWaveInput) (digest : String)
    (cutoff : ℕ)
    → is_empty (integrity_reasons dossier valuation research wave digest cutoff) ≡ (
        not (not (is_exact_bsc_token dossier.token))
        && not (ltb cutoff dossier.as_of)
        && not (valuation_from_future valuation cutoff)
        && not (not (is_token research.token dossier.token))
        && not (ltb cutoff research.decision_time)
        && not (not (research.decision_time == dossier.as_of))
        && not (not (str_eq research.dossier_hash digest))
        && not (not research.identity_valid)
        && is_empty (boundary_reasons research.current_signal wave))
unfolding integrity_reasons
integrity_lem dossier valuation research wave digest cutoff =
    simp (is_empty-append, is_empty-when) refl

boundary_lem :
    (b : CurrentSignalBoundary) (wave : CurrentWaveInput)
    → is_empty (boundary_reasons (some b) (some wave)) ≡ (
        not (not (str_eq wave.signal_identity b.signal_id))
        && not (not (wave.provider_at == b.event_at) || not (wave.available_at == b.available_at)))
boundary_lem b wave = simp (is_empty-append, is_empty-when) refl

-- Without a reason against it, the wave is the one of the boundary.
boundary_of :
    (o : Option CurrentSignalBoundary) (wave : CurrentWaveInput)
    → is_empty (boundary_reasons o (some wave)) ≡ true
    → (b : CurrentSignalBoundary) × (o ≡ some b)
      × (wave.signal_identity ≡ b.signal_id)
      × (wave.provider_at ≡ b.event_at)
      × (wave.available_at ≡ b.available_at)
boundary_of none wave h = cc
boundary_of (some b) wave h =
    let parts =
      &&-true (not (not (str_eq wave.signal_identity b.signal_id)))
        (not (not (wave.provider_at == b.event_at) || not (wave.available_at == b.available_at)))
        (sym (boundary_lem b wave) ∙ h) in
    (
      b,
      refl,
      (eq_iff wave.signal_identity b.signal_id).0 (ground arith),
      ground arith,
      ground arith,
    )

pub integrity-IsBound :
    (dossier : NarrativeDossier) (valuation : Option ValuationView)
    (research : NarrativeResearchResult) (wave : CurrentWaveInput) (digest : String) (cutoff : ℕ)
    → is_empty (integrity_reasons dossier valuation research (some wave) digest cutoff) ≡ true
    → IsBound dossier valuation research wave digest cutoff
integrity-IsBound dossier valuation research wave digest cutoff h =
    let t8 =
      &&-true _ _ (sym (integrity_lem dossier valuation research (some wave) digest cutoff) ∙ h) in
    let t7 = &&-true _ (not (not research.identity_valid)) t8.0 in
    let t6 = &&-true _ (not (not (str_eq research.dossier_hash digest))) t7.0 in
    let t5 = &&-true _ (not (not (research.decision_time == dossier.as_of))) t6.0 in
    let t4 = &&-true _ (not (ltb cutoff research.decision_time)) t5.0 in
    let t3 = &&-true _ (not (not (is_token research.token dossier.token))) t4.0 in
    let t2 = &&-true _ (not (valuation_from_future valuation cutoff)) t3.0 in
    let t1 =
      &&-true (not (not (is_exact_bsc_token dossier.token))) (not (ltb cutoff dossier.as_of))
        t2.0 in
    let (b, has, signal, event, available) = boundary_of research.current_signal wave t8.1 in
    record {
      token_ok = ground (arith, t1.0);
      dossier_known = ground (arith, t1.1);
      valuation_known = ground (arith, t2.1);
      same_token = ground (arith, t3.1);
      same_instant = ground (arith, t5.1);
      same_dossier = (eq_iff research.dossier_hash digest).0 (ground (arith, t6.1));
      identity_ok = ground (arith, t7.1);
      boundary = b;
      has_boundary = has;
      same_signal = signal;
      same_event = event;
      same_availability = available;
    }
