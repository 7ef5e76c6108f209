-- ===== src/Entry/Authorization.antt =====
-- `authorize_entry` (src/debot4/v6/narrative/entry.py).
use debot.Base.{String, List, [], ◌∷◌, ◌++◌, str_append, or_else, prefixed, unique}
use debot.Gate.Domain.{GateStatus, NarrativeGateDecision}
use debot.Entry.Models.{
  ExecutionStatus, EntryStatus, ExecutionDecision, EntryAuthorization, entry_schema,
}
use debot.Entry.Rules.{entry_status}

-- `rejects.extend(f"gate:{item}" …)` if the gate rejects
abbrev pub gate_rejects : NarrativeGateDecision → GateStatus → List String
gate_rejects gate GateStatus.reject = prefixed "gate:" gate.reasons
gate_rejects gate _ = []

-- `waits.extend(f"gate:{item}" …)` if it neither rejects nor passes
abbrev pub gate_waits : NarrativeGateDecision → GateStatus → List String
gate_waits gate GateStatus.wait = prefixed "gate:" gate.reasons
gate_waits gate _ = []

abbrev pub execution_rejects : ExecutionDecision → ExecutionStatus → List String
execution_rejects execution ExecutionStatus.reject = prefixed "execution:" execution.reasons
execution_rejects execution _ = []

abbrev pub execution_waits : ExecutionDecision → ExecutionStatus → List String
execution_waits execution ExecutionStatus.requote = prefixed "execution:" execution.reasons
execution_waits execution _ = []

pub record EntryMaterial : Type 0 where
  pub gate_identity : String
  pub gate_status : GateStatus
  pub execution_identity : String
  pub execution_status : ExecutionStatus
  pub status : EntryStatus
  pub reasons : List String

unfoldable pub authorize_entry :
    (EntryMaterial → String) → NarrativeGateDecision → ExecutionDecision → EntryAuthorization
authorize_entry digest gate execution =
    let rejects = gate_rejects gate gate.status ++ execution_rejects execution execution.status in
    let waits = gate_waits gate gate.status ++ execution_waits execution execution.status in
    let status = entry_status rejects waits in
    let reasons = unique (or_else rejects (or_else waits ("v6_entry_authorized" ∷ []))) in
    let hash = digest (record {
      gate_identity = gate.identity;
      gate_status = gate.status;
      execution_identity = execution.identity;
      execution_status = execution.status;
      status = status;
      reasons = reasons;
    }) in
    record {
      status = status;
      reasons = reasons;
      identity = str_append entry_schema (str_append ":" hash);
      identity_hash = hash;
    }
