-- ===== src/Workflow/Transition.antt =====
-- `apply_workflow_transition`: the next state of a workflow after an event.
use hermes_plugin_async_thre.Prelude.{
  Bool, Option, String, elem, if◌then◌else◌, is_some, none, not, some, ◌&&◌, ◌==◌, ◌||◌,
}
use hermes_plugin_async_thre.Privacy.{fingerprint}
use hermes_plugin_async_thre.Python.Json.{Fields, end, field, get, obj, or_dict, put, text}
use hermes_plugin_async_thre.Python.Runtime.{Runtime}
use hermes_plugin_async_thre.Python.Values.{str_or_empty}
use hermes_plugin_async_thre.Workflow.Event.{WorkflowEvent}
use hermes_plugin_async_thre.Workflow.Gates.{GateReport, compute_gates}
use hermes_plugin_async_thre.Workflow.Policy.{WorkflowPolicy, clean_gate_name}

-- a row of `workflow_state`, as `_row_to_workflow_dict` gives it
pub record WorkflowState : Type 0 where
  pub workflow_id : String
  pub stage : String
  pub artifact : Fields
  pub artifact_fingerprint : String
  pub candidate : Fields
  pub evidence : Fields
  pub gates : GateReport
  pub last_event_id : String
  pub last_event_type : String
  pub last_summary : String
  pub created_at : String
  pub updated_at : String

abbrev pub is_terminal_stage : String → Bool
is_terminal_stage stage = stage == "released" || stage == "cancelled"

-- `a or b`, of two texts
abbrev pub or_text : String → String → String
or_text a b = if a == "" then b else a

-- `"all" in gates or kind in gates`
unfoldable pub stales_on_artifact_change : String → WorkflowPolicy → Bool
stales_on_artifact_change kind policy =
    elem "all" policy.stale_on_artifact_change || elem kind policy.stale_on_artifact_change

-- the four writes that turn passed evidence into stale evidence
unfoldable pub stale_item : String → Fields → Fields
stale_item now item = put "stale_at" (text now) (
    put "stale_reason" (text "artifact_changed")
      (put "status" (text "stale") (put "previous_status" (get "status" item) item)))

module _ ⦃py : Runtime⦄ where
  -- `str(item.get("status") or "") == "passed"`
  unfoldable pub has_passed : Fields → Bool
  unfolding str_or_empty
  has_passed item = str_or_empty (get "status" item) == "passed"

  -- `_evidence_map`: entries under a clean gate name whose value is a dict
  evidence_entries : Fields → Fields → Fields
  unfolding clean_gate_name
  evidence_entries result end = result
  evidence_entries result (field key (obj item) d) =
      let gate = clean_gate_name (text key) in
      evidence_entries (if gate == "" then result else put gate (obj item) result) d
  evidence_entries result (field key v d) = evidence_entries result d

  unfoldable pub evidence_map : Fields → Fields
  unfolding evidence_entries
  evidence_map value = evidence_entries end value

  -- `_mark_stale_evidence`, where the policy names gates: the loop over the copies
  unfoldable pub mark_stale_evidence : WorkflowPolicy → String → Fields → Fields
  unfolding stales_on_artifact_change has_passed stale_item
  mark_stale_evidence policy now end = end
  mark_stale_evidence policy now (field gate (obj item) d) =
      let rest = mark_stale_evidence policy now d in
      field gate
        (obj (
          if stales_on_artifact_change gate policy && has_passed item
          then stale_item now item
          else item))
        rest
  mark_stale_evidence policy now (field gate v d) = field gate v (mark_stale_evidence policy now d)

  -- the entry that incoming evidence leaves under its kind
  unfoldable pub incoming_entry : Bool → String → String → String → Fields → Fields
  unfolding stale_item
  incoming_entry staled kind fingerprint now incoming = put "updated_at" (text now) (
      put "artifact_fingerprint" (text fingerprint)
        (put "kind" (text kind) (if staled then stale_item now incoming else incoming)))

  module _ (previous : Option WorkflowState) (event : WorkflowEvent) (policy : WorkflowPolicy)
      (now : String) where
    abbrev pub previous_fingerprint : String
    previous_fingerprint = elim previous [ none ↦ "" | some p ↦ p.artifact_fingerprint ]

    abbrev pub previous_stage : String
    previous_stage = elim previous [ none ↦ "" | some p ↦ p.stage ]

    abbrev pub previous_artifact : Fields
    previous_artifact = elim previous [ none ↦ end | some p ↦ p.artifact ]

    abbrev pub previous_candidate : Fields
    previous_candidate = elim previous [ none ↦ end | some p ↦ p.candidate ]

    abbrev pub current_fingerprint : String
    current_fingerprint = or_text event.artifact_fingerprint previous_fingerprint

    unfoldable pub artifact_changed : Bool
    artifact_changed =
        not (current_fingerprint == "")
        && not (previous_fingerprint == "")
        && not (current_fingerprint == previous_fingerprint)

    unfoldable pub kept_evidence : Fields
    unfolding evidence_map mark_stale_evidence artifact_changed
    kept_evidence =
        let evidence = evidence_map (elim previous [ none ↦ end | some p ↦ p.evidence ]) in
        if artifact_changed then mark_stale_evidence policy now evidence else evidence

    -- incoming passed evidence about an artifact that has just changed does not count
    unfoldable pub staled_incoming : Bool
    unfolding artifact_changed stales_on_artifact_change has_passed clean_gate_name
    staled_incoming =
        artifact_changed
        && stales_on_artifact_change (clean_gate_name (get "kind" event.evidence)) policy
        && has_passed event.evidence

    unfoldable pub next_evidence : Fields
    unfolding kept_evidence staled_incoming incoming_entry clean_gate_name
    next_evidence =
        let kind = clean_gate_name (get "kind" event.evidence) in
        if kind == ""
        then kept_evidence
        else put kind
            (obj (incoming_entry staled_incoming kind current_fingerprint now event.evidence))
            kept_evidence

    -- `preserve_previous_state_for_stale_incoming`
    unfoldable pub preserves_previous : Bool
    unfolding staled_incoming clean_gate_name
    preserves_previous =
        not (clean_gate_name (get "kind" event.evidence) == "")
        && staled_incoming
        && is_some previous

    unfoldable pub next_stage : String
    unfolding preserves_previous
    next_stage =
        let stage = or_text event.stage previous_stage in
        if is_terminal_stage previous_stage && not (is_terminal_stage stage)
        then previous_stage
        else if preserves_previous
        then previous_stage
        else stage

    -- the `elif` keeps the previous artifact only where the stage was not kept by the first test
    unfoldable pub keeps_artifact : Bool
    unfolding preserves_previous
    keeps_artifact =
        not (
          is_terminal_stage previous_stage
          && not (is_terminal_stage (or_text event.stage previous_stage)))
        && preserves_previous

    unfoldable pub apply_workflow_transition : WorkflowState
    unfolding next_evidence next_stage keeps_artifact compute_gates
    apply_workflow_transition =
        let candidate = or_dict event.candidate previous_candidate in
        record {
          workflow_id = event.workflow_id;
          stage = next_stage;
          artifact =
              if keeps_artifact
              then previous_artifact
              else or_dict event.artifact previous_artifact;
          artifact_fingerprint =
              if keeps_artifact then previous_fingerprint else current_fingerprint;
          candidate = candidate;
          evidence = next_evidence;
          gates = compute_gates policy next_evidence candidate;
          last_event_id = event.last_event_id;
          last_event_type = event.last_event_type;
          last_summary = event.last_summary;
          created_at = elim previous [ none ↦ now | some p ↦ p.created_at ];
          updated_at = now;
        }
