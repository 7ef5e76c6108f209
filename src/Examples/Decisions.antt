-- ===== src/Examples/Decisions.antt =====
-- The theorems on the entry and the gate, at concrete inputs.
use debot.Gate.Rules
use mathlib.Core.Logic.{◌↔◌}
use mathlib.Core.List.{Memᴰ}
use debot.Gate.Readiness.{
  is_supported, ReadinessPolicy, evaluate_readiness, readiness_rejects, unresolved, readiness_waits,
}
use debot.Gate.Dossier.{finding, effective_state, usable_ids}
use debot.Gate.Evidence.{supported-Usable, Usable}
use debot.Base.{String, ◌≡◌, refl, true, false, ◌&&◌, [], ◌∷◌, Option, none, some}
use debot.Base.Int.{pos}
use debot.Entry.Models.{
  QuoteBoundary, HeadBoundary, ExecutionPolicy, is_pass, is_commit, is_bsc_address,
}
use debot.Entry.Rules.{evaluate_execution_boundary}
use debot.Entry.Authorization.{authorize_entry}
use debot.Entry.Fresh.{IsExecutable, passes-IsExecutable}
use debot.Entry.Commit.{commits-passes}
use debot.Gate.Domain.{
  TokenRef, NarrativeDossier, ValuationView, ValuationStatus, DimensionFinding, EvidenceItem,
  EvidenceSource, EvidenceRole, EvidenceScope, FindingState, Dimension, Canonicality,
  ConsensusStage, ResearchStatus, CurrentWaveInput, NarrativeResearchResult, GatePolicy,
  is_exact_bsc_token, usable_at,
}
use debot.Gate.Wave.{
  assess_current_wave, wave_rejects, wave_waits, wave_age, normal_group, expected_quality,
}
use debot.Gate.Rules.{
  evaluate_narrative_gate, Digests, narrative_passes, integrity_reasons, gate_rejects, gate_waits,
}
use debot.Gate.FreshWave.{IsFresh, passes-IsFresh}
use debot.Gate.Confirmed.{IsConfirmed, ready-IsConfirmed}
use debot.Gate.Passing.{IsCleared, passes-IsCleared}

abbrev address : String
address = "0x00112233445566778899aabbccddeeff00112233"

abbrev block_hash : String
block_hash = "0x00112233445566778899aabbccddeeff00112233445566778899aabbccddeeff"

abbrev quote : QuoteBoundary
quote = record {
  token_address = address;
  block_number = pos 100;
  block_hash = block_hash;
  block_timestamp = 900;
  completed_at = 1000;
}

abbrev head : HeadBoundary
head = record { block_number = pos 101; block_hash = block_hash; observed_at = 1100 }

abbrev execution_policy : ExecutionPolicy
execution_policy = record {
  max_quote_age = 500;
  max_head_age = 500;
  max_head_lag_blocks = 2;
  max_future_skew = 50;
}

passes-IsExecutable_example :
    (is_pass
        (evaluate_execution_boundary (λ m. "digest") quote 1200 (some head) execution_policy).status
      ≡ true)
    ↔ IsExecutable quote 1200 head execution_policy
passes-IsExecutable_example = passes-IsExecutable quote 1200 head execution_policy (λ m. "digest")

abbrev token : TokenRef
token = record { chain = "bsc"; address = address }

abbrev evidence : EvidenceItem
evidence = record {
  evidence_id = "post-1";
  source = EvidenceSource.primary_actor;
  role = EvidenceRole.token_binding;
  published_at = 10;
  first_seen_at = 20;
  captured_at = 30;
  token_address = address;
  exact_ca = true;
  scope = EvidenceScope.live_eligible;
}

abbrev confirmed_by : Dimension → DimensionFinding
confirmed_by dimension = record {
  dimension = dimension;
  state = FindingState.confirmed;
  supports = "post-1" ∷ [];
  contradicts = [];
}

abbrev dossier : NarrativeDossier
dossier = record {
  token = token;
  as_of = 1000;
  thesis = "a creator's own token";
  canonicality = Canonicality.creator_claimed;
  stage = ConsensusStage.expansion;
  evidence = evidence ∷ [];
  findings =
      confirmed_by Dimension.origin
      ∷ confirmed_by Dimension.legitimacy
      ∷ confirmed_by Dimension.leader_competition
      ∷ confirmed_by Dimension.propagation
      ∷ confirmed_by Dimension.cultural_fit
      ∷ confirmed_by Dimension.catalysts
      ∷ confirmed_by Dimension.consensus_stage
      ∷ [];
  fatal_unknowns = [];
}

abbrev valuation : Option ValuationView
valuation = some (record { as_of = 900; status = ValuationStatus.bounded })

abbrev wave : CurrentWaveInput
wave = record {
  token_address = address;
  group = "kol#1";
  signal_identity = "signal-1";
  provider_at = 1000;
  available_at = 1010;
  assessed_at = 1020;
  qualified = true;
  security_passed = true;
  evidence_quality = "provider_ui_asserted";
  chain_verified = false;
  reasons = [];
}

abbrev research : NarrativeResearchResult
research = record {
  status = ResearchStatus.ready;
  reasons = "ready" ∷ [];
  decision_time = 1000;
  token = token;
  kol_qualified = true;
  kol_kind = none;
  current_signal = some (record { signal_id = "signal-1"; event_at = 1000; available_at = 1010 });
  identity = "research";
  identity_hash = "hash";
  dossier_hash = "digest";
  identity_valid = true;
}

abbrev digests : Digests
digests = record {
  casefold = λ s. s;
  of_dossier = λ d. "digest";
  of_valuation = λ v. "value";
  of_gate = λ m. "gate";
}

abbrev gate_policy : GatePolicy
gate_policy = record {
  require_historical_kol_evidence = true;
  allow_historical_kol_participation_proxy = false;
  maximum_current_wave_age = 100;
}

abbrev strict : ReadinessPolicy
strict = record { require_capital_confirmation = false; require_bounded_valuation = true }

passes-IsFresh_example :
    (Rules.is_pass (assess_current_wave (λ s. s) (some wave) token 1050 100).status ≡ true)
    ↔ IsFresh (λ s. s) wave token 1050 100
passes-IsFresh_example = passes-IsFresh (λ s. s) wave token 1050 100

ready-IsConfirmed_example :
    (narrative_passes (evaluate_readiness dossier valuation strict).status ≡ true)
    ↔ IsConfirmed dossier valuation strict
ready-IsConfirmed_example = ready-IsConfirmed dossier valuation strict

unfoldable decided : Unit {0}
unfolding evaluate_narrative_gate integrity_reasons gate_rejects gate_waits is_exact_bsc_token
    is_bsc_address assess_current_wave wave_rejects wave_waits wave_age normal_group
    expected_quality evaluate_readiness readiness_rejects unresolved readiness_waits effective_state
    usable_ids usable_at
decided = tt

gate_passes :
    Rules.is_pass
      (evaluate_narrative_gate digests dossier valuation research
        (some wave)
        1050
        gate_policy).status
    ≡ true
unfolding decided
gate_passes = refl

passes-IsCleared_example : IsCleared digests dossier valuation research (some wave) 1050 gate_policy
passes-IsCleared_example =
    passes-IsCleared digests dossier valuation research 1050 gate_policy (some wave) refl
      gate_passes

commits-passes_example :
    is_commit
      (authorize_entry
        (λ m. "entry")
        (evaluate_narrative_gate digests dossier valuation research (some wave) 1050 gate_policy)
        (evaluate_execution_boundary
          (λ m. "digest")
          quote
          1200
          (some head)
          execution_policy)).status
    ≡ (Rules.is_pass
          (evaluate_narrative_gate digests dossier valuation research
            (some wave)
            1050
            gate_policy).status
        && is_pass
            (evaluate_execution_boundary
              (λ m. "digest")
              quote
              1200
              (some head)
              execution_policy).status)
commits-passes_example =
    commits-passes digests (λ m. "digest") (λ m. "entry") dossier valuation research (some wave)
      1050 gate_policy quote 1200 (some head) execution_policy

origin_confirmed : is_supported (effective_state dossier Dimension.origin) ≡ true
unfolding decided
origin_confirmed = refl

supported-Usable_example :
    (item : DimensionFinding) × (finding dossier Dimension.origin ≡ some item)
    × ((ref : String) × Memᴰ ref item.supports × Usable dossier.evidence dossier.as_of ref)
supported-Usable_example = supported-Usable dossier Dimension.origin origin_confirmed
