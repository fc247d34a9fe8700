-- ===== src/Workflow/Stale.antt =====
-- When the artifact changes, what was passed for the old one no longer counts. Terminal stages stay.
use mathlib.Core.Path.{subst}
use hermes_plugin_async_thre.Prelude.{
  Bool, Bool-cases, Option, String, ap, arith, eq_iff, false, if◌then◌else◌, inl, inr, none, refl,
  some, sym, true, ◌&&◌, ◌==◌, ◌∙◌, ◌≡◌,
}
use hermes_plugin_async_thre.Privacy.{fingerprint}
use hermes_plugin_async_thre.Python.Dicts.{find-put, get-field, get-put}
use hermes_plugin_async_thre.Python.Json.{
  Fields, Json, end, field, find, get, mapping, null, obj, text,
}
use hermes_plugin_async_thre.Python.Runtime.{Runtime}
use hermes_plugin_async_thre.Python.Values.{str_or_empty}
use hermes_plugin_async_thre.Workflow.Event.{WorkflowEvent}
use hermes_plugin_async_thre.Workflow.Policy.{WorkflowPolicy, clean_gate_name}
use hermes_plugin_async_thre.Workflow.Transition.{
  WorkflowState, apply_workflow_transition, artifact_changed, has_passed, incoming_entry,
  is_terminal_stage, kept_evidence, mark_stale_evidence, next_evidence, next_stage, previous_stage,
  stale_item, staled_incoming, stales_on_artifact_change,
}

module _ ⦃py : Runtime⦄ where
  -- `str(item.get("status") or "") == "passed"` depends on the status alone
  has_passed-status :
      (a b : Fields) → find "status" a ≡ find "status" b → has_passed a ≡ has_passed b
  unfolding has_passed
  has_passed-status a b h =
      ap (λ o. str_or_empty (elim o [ none ↦ null | some w ↦ w ]) == "passed") h

  status-stale_item :
      (now : String) (item : Fields) → find "status" (stale_item now item) ≡ some (text "stale")
  unfolding stale_item
  status-stale_item now item = simp (find-put)

  has_passed-stale_item : (now : String) (item : Fields) → has_passed (stale_item now item) ≡ false
  unfolding has_passed str_or_empty
  has_passed-stale_item now item =
      ap (λ o. str_or_empty (elim o [ none ↦ null | some w ↦ w ]) == "passed")
        (status-stale_item now item)

  -- an entry that `mark_stale_evidence` has been over
  marked_item :
      (staling : Bool) (now : String) (item : Fields)
      → staling ≡ true
      → has_passed (if staling && has_passed item then stale_item now item else item) ≡ false
  marked_item staling now item h = elim (Bool-cases (has_passed item)) [
    | inl p ↦ rw (h, p) (has_passed-stale_item now item)
    | inr np ↦ rw (h, np) np
  ]

  -- the gate's evidence, read from a dict with one more entry in front
  passed_in_front :
      (g gate : String) (v : Json) (d : Fields)
      → (g ≡ gate → has_passed (mapping v) ≡ false)
      → has_passed (mapping (get g d)) ≡ false
      → has_passed (mapping (get g (field gate v d))) ≡ false
  passed_in_front g gate v d at_head below = rw get-field (elim (Bool-cases (g == gate)) [
    | inl same ↦ rw same (at_head ((eq_iff g gate).0 same))
    | inr other ↦ rw other below
  ])

  nothing_passed : has_passed end ≡ false
  unfolding has_passed str_or_empty
  nothing_passed = refl

  module _ (policy : WorkflowPolicy) (now g : String)
      (affected : stales_on_artifact_change g policy ≡ true) where
    mark_stale_evidence-passed :
        (d : Fields) → has_passed (mapping (get g (mark_stale_evidence policy now d))) ≡ false
    unfolding mark_stale_evidence
    mark_stale_evidence-passed end = nothing_passed
    mark_stale_evidence-passed (field gate (obj item) d) =
        passed_in_front g gate _ _
          (λ e.
            marked_item _ now item
              (ap (λ k. stales_on_artifact_change k policy) (sym e) ∙ affected))
          (mark_stale_evidence-passed d)
    mark_stale_evidence-passed (field gate v d) =
        passed_in_front g gate _ _ (λ e. nothing_passed) (mark_stale_evidence-passed d)

  has_passed-incoming_entry :
      (staled : Bool) (kind fingerprint now : String) (incoming : Fields)
      → (staled ≡ false → has_passed incoming ≡ false)
      → has_passed (incoming_entry staled kind fingerprint now incoming) ≡ false
  unfolding incoming_entry
  has_passed-incoming_entry true kind fingerprint now incoming h =
      has_passed-status _ (stale_item now incoming) (simp find-put)
      ∙ has_passed-stale_item now incoming
  has_passed-incoming_entry false kind fingerprint now incoming h =
      has_passed-status _ incoming (simp find-put) ∙ h refl

  module _ (previous : Option WorkflowState) (event : WorkflowEvent) (policy : WorkflowPolicy)
      (now : String) where
    kept_evidence-passed :
        (gate : String)
        → artifact_changed previous event policy now ≡ true
        → stales_on_artifact_change gate policy ≡ true
        → has_passed (mapping (get gate (kept_evidence previous event policy now))) ≡ false
    unfolding kept_evidence
    kept_evidence-passed gate changed affected =
        rw changed (mark_stale_evidence-passed policy now gate affected _)

    incoming_not_passed :
        artifact_changed previous event policy now ≡ true
        → stales_on_artifact_change (clean_gate_name (get "kind" event.evidence)) policy ≡ true
        → staled_incoming previous event policy now ≡ false
        → has_passed event.evidence ≡ false
    unfolding staled_incoming
    incoming_not_passed changed affected h = ground arith

    -- After an event that brings a different artifact, no gate that the policy resets on such a
    -- change has passed evidence, neither kept from before nor brought by that same event.
    pub stale_after_artifact_change :
        (gate : String)
        → artifact_changed previous event policy now ≡ true
        → stales_on_artifact_change gate policy ≡ true
        → has_passed
            (mapping (get gate (apply_workflow_transition previous event policy now).evidence))
          ≡ false
    unfolding apply_workflow_transition next_evidence
    stale_after_artifact_change gate changed affected =
        let kind = clean_gate_name (get "kind" event.evidence) in
        elim (Bool-cases (kind == "")) [
          | inl plain ↦ rw plain (kept_evidence-passed gate changed affected)
          | inr given ↦
              rw (given, get-put)
                (elim (Bool-cases (gate == kind)) [
                  | inl same ↦ rw same (
                      has_passed-incoming_entry _ kind _ now event.evidence (
                        incoming_not_passed changed (
                          subst (λ k. stales_on_artifact_change k policy ≡ true)
                            ((eq_iff gate kind).0 same) affected)))
                  | inr other ↦ rw other (kept_evidence-passed gate changed affected)
                ])
        ]

    -- A released or cancelled workflow stays released or cancelled, whatever event comes.
    pub terminal_stage_stays :
        is_terminal_stage (previous_stage previous event policy now) ≡ true
        → is_terminal_stage (apply_workflow_transition previous event policy now).stage ≡ true
    unfolding apply_workflow_transition next_stage
    terminal_stage_stays h = ground arith
