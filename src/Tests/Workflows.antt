-- ===== src/Tests/Workflows.antt =====
-- A workflow with two gates.
use hermes_plugin_async_thre.Prelude.{[], false, refl, some, true, ◌∷◌, ◌≡◌}
use hermes_plugin_async_thre.Python.Json.{Fields, end, field, get, mapping, obj, text}
use hermes_plugin_async_thre.Tests.AsciiRuntime.{ascii_runtime}
use hermes_plugin_async_thre.Workflow.Event.{WorkflowEvent}
use hermes_plugin_async_thre.Workflow.Gates.{compute_gates}
use hermes_plugin_async_thre.Workflow.Policy.{WorkflowPolicy, serial}
use hermes_plugin_async_thre.Workflow.Stale.{stale_after_artifact_change, terminal_stage_stays}
use hermes_plugin_async_thre.Workflow.Transition.{
  WorkflowState, apply_workflow_transition, artifact_changed, has_passed, is_terminal_stage,
  stales_on_artifact_change,
}

abbrev sample_gates : WorkflowPolicy
sample_gates = record {
  gate_order = "review" ∷ "qa" ∷ [];
  gate_mode = serial;
  stale_on_artifact_change = "review" ∷ [];
  candidate_required = "qa" ∷ [];
}

abbrev passed_review : Fields
passed_review = field "status" (text "passed") end

-- a released workflow whose review has passed, and an event that brings another artifact
abbrev released_state : WorkflowState
released_state = record {
  workflow_id = "wf";
  stage = "released";
  artifact = field "id" (text "sha1") end;
  artifact_fingerprint = "aaaa";
  candidate = end;
  evidence = field "review" (obj passed_review) end;
  gates = compute_gates sample_gates (field "review" (obj passed_review) end) end;
  last_event_id = "e1";
  last_event_type = "ci.run.finished";
  last_summary = "";
  created_at = "t0";
  updated_at = "t0";
}

abbrev push_event : WorkflowEvent
push_event = record {
  workflow_id = "wf";
  stage = "progress";
  artifact = field "id" (text "sha2") end;
  artifact_fingerprint = "bbbb";
  candidate = end;
  evidence = end;
  last_event_id = "e2";
  last_event_type = "ci.push";
  last_summary = "";
}

push-changes : artifact_changed (some released_state) push_event sample_gates "t1" ≡ true
unfolding artifact_changed
push-changes = refl

review-affected : stales_on_artifact_change "review" sample_gates ≡ true
unfolding stales_on_artifact_change
review-affected = refl

stale_after_artifact_change_example :
    has_passed (
      mapping (
        get "review"
          (apply_workflow_transition (some released_state) push_event sample_gates "t1").evidence))
    ≡ false
stale_after_artifact_change_example =
    stale_after_artifact_change (some released_state) push_event sample_gates "t1" "review"
      push-changes review-affected

terminal_stage_stays_example :
    is_terminal_stage
      (apply_workflow_transition (some released_state) push_event sample_gates "t1").stage
    ≡ true
terminal_stage_stays_example =
    terminal_stage_stays (some released_state) push_event sample_gates "t1" refl
