-- ===== src/Entry/Commit.antt =====
-- When an entry is committed (`authorize_entry` over the gate's and the boundary's decisions).
use debot.Base.{
  ℕ, String, ◌≡◌, refl, false, ◌&&◌, List, [], ◌∷◌, ◌++◌, Option, arith, is_empty, is_empty-append,
  is_empty-prefixed, is_empty-unique, is_empty-or_else,
}
use debot.Gate.Domain.{
  GateStatus, NarrativeGateDecision, NarrativeDossier, ValuationView, NarrativeResearchResult,
  CurrentWaveInput, GatePolicy,
}
use debot.Gate.Rules.{evaluate_narrative_gate, Digests}
use debot.Gate.Rules
use debot.Entry.Models.{
  ExecutionStatus, QuoteBoundary, HeadBoundary, ExecutionPolicy, ExecutionDecision,
  ExecutionMaterial, is_pass, is_commit,
}
use debot.Entry.Rules.{evaluate_execution_boundary, entry_status}
use debot.Entry.Authorization.{
  authorize_entry, EntryMaterial, gate_rejects, gate_waits, execution_rejects, execution_waits,
}

commits_when_empty :
    (rs ws : List String) → is_commit (entry_status rs ws) ≡ (is_empty rs && is_empty ws)
commits_when_empty [] [] = refl
commits_when_empty [] (w ∷ ws) = refl
commits_when_empty (r ∷ rs) ws = refl

-- Neither side has a reason against the entry exactly when both pass, as both give reasons.
reasons_lem :
    (gate : NarrativeGateDecision) (execution : ExecutionDecision) (s : GateStatus)
    (t : ExecutionStatus)
    → is_empty gate.reasons ≡ false
    → is_empty execution.reasons ≡ false
    → (is_empty (gate_rejects gate s ++ execution_rejects execution t)
        && is_empty (gate_waits gate s ++ execution_waits execution t))
      ≡ (Rules.is_pass s && is_pass t)
reasons_lem gate execution s t g e =
    rw
      (
        is_empty-append (gate_rejects gate s) (execution_rejects execution t),
        is_empty-append (gate_waits gate s) (execution_waits execution t),
      )
      (cases s t)
  where
    cases :
        (s : GateStatus) (t : ExecutionStatus)
        → ((is_empty (gate_rejects gate s) && is_empty (execution_rejects execution t))
            && (is_empty (gate_waits gate s) && is_empty (execution_waits execution t)))
          ≡ (Rules.is_pass s && is_pass t)
    cases GateStatus.pass ExecutionStatus.pass = refl
    cases GateStatus.pass ExecutionStatus.requote = simp (is_empty-prefixed, e) refl
    cases GateStatus.pass ExecutionStatus.reject = simp (is_empty-prefixed, e) refl
    cases GateStatus.wait t = ground (arith, is_empty-prefixed "gate:" gate.reasons)
    cases GateStatus.reject t = ground (arith, is_empty-prefixed "gate:" gate.reasons)

pub commit_of :
    (digest : EntryMaterial → String) (gate : NarrativeGateDecision) (execution : ExecutionDecision)
    → is_empty gate.reasons ≡ false
    → is_empty execution.reasons ≡ false
    → is_commit (authorize_entry digest gate execution).status
      ≡ (Rules.is_pass gate.status && is_pass execution.status)
unfolding authorize_entry
commit_of digest gate execution g e =
    rw
      (commits_when_empty
        (gate_rejects gate gate.status ++ execution_rejects execution execution.status)
        (gate_waits gate gate.status ++ execution_waits execution execution.status))
      (reasons_lem gate execution gate.status execution.status g e)

gate_gives_reasons :
    (digests : Digests) (dossier : NarrativeDossier) (valuation : Option ValuationView)
    (research : NarrativeResearchResult) (wave : Option CurrentWaveInput) (at : ℕ)
    (policy : GatePolicy)
    → is_empty (evaluate_narrative_gate digests dossier valuation research wave at policy).reasons
      ≡ false
unfolding evaluate_narrative_gate
gate_gives_reasons digests dossier valuation research wave at policy =
    simp (is_empty-unique, is_empty-or_else) (ground arith)

boundary_gives_reasons :
    (digest : ExecutionMaterial → String) (quote : QuoteBoundary) (now : ℕ)
    (head : Option HeadBoundary) (policy : ExecutionPolicy)
    → is_empty (evaluate_execution_boundary digest quote now head policy).reasons ≡ false
unfolding evaluate_execution_boundary
boundary_gives_reasons digest quote now head policy =
    simp (is_empty-unique, is_empty-or_else) (ground arith)

-- An entry that is decided from the gate's decision and the boundary's is committed exactly when both
-- of them pass.
pub commits-passes :
    (digests : Digests) (execution_digest : ExecutionMaterial → String)
    (entry_digest : EntryMaterial → String) (dossier : NarrativeDossier)
    (valuation : Option ValuationView) (research : NarrativeResearchResult)
    (wave : Option CurrentWaveInput) (decided_at : ℕ) (gate_policy : GatePolicy)
    (quote : QuoteBoundary) (now : ℕ) (head : Option HeadBoundary) (policy : ExecutionPolicy)
    → let gate =
        evaluate_narrative_gate digests dossier valuation research wave decided_at gate_policy in
      let execution = evaluate_execution_boundary execution_digest quote now head policy in
      is_commit (authorize_entry entry_digest gate execution).status
      ≡ (Rules.is_pass gate.status && is_pass execution.status)
commits-passes digests execution_digest entry_digest dossier valuation research wave decided_at
      gate_policy quote now head policy =
    commit_of entry_digest _ _
      (gate_gives_reasons digests dossier valuation research wave decided_at gate_policy)
      (boundary_gives_reasons execution_digest quote now head policy)
