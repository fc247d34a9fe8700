-- ===== src/Workflow/Event.antt =====
-- `normalize_workflow_event`: the workflow fields of an authenticated event.
use hermes_plugin_async_thre.Prelude.{
  List, Option, String, [], elem, if◌then◌else◌, none, not, some, ◌==◌, ◌∷◌,
}
use hermes_plugin_async_thre.Privacy.{
  redact_metadata_text, redact_secret_text, sanitize_untrusted_value,
}
use hermes_plugin_async_thre.Python.Json.{
  Fields, Json, end, field, fields?, get, mapping, null, obj, or_dict, put, text,
}
use hermes_plugin_async_thre.Python.Runtime.{Runtime}
use hermes_plugin_async_thre.Python.Text.{clip, replace, strip}
use hermes_plugin_async_thre.Python.Values.{or_value, str_or_empty, to_str}
use hermes_plugin_async_thre.Security.{EnvelopeFields}
use hermes_plugin_async_thre.Workflow.Policy.{clean_gate_name}

pub record WorkflowEvent : Type 0 where
  pub workflow_id : String
  pub stage : String
  pub artifact : Fields
  pub artifact_fingerprint : String
  pub candidate : Fields
  pub evidence : Fields
  pub last_event_id : String
  pub last_event_type : String
  pub last_summary : String

-- `_get(data, "a.b")`
abbrev pub get_path : Fields → String → String → Json
get_path d a b = elim (fields? (get a d)) [ none ↦ null | some e ↦ get b e ]

abbrev pub workflow_stages : List String
workflow_stages =
    "started" ∷ "progress" ∷ "ready_for_review" ∷ "review_requested" ∷ "review_passed"
    ∷ "review_failed" ∷ "candidate_ready" ∷ "qa_requested" ∷ "qa_passed" ∷ "qa_failed" ∷ "blocked"
    ∷ "needs_attention" ∷ "released" ∷ "cancelled" ∷ []

module _ ⦃py : Runtime⦄ where
  -- `_first_string(*values)`
  unfoldable pub first_string : List Json → String
  unfolding strip to_str
  first_string [] = ""
  first_string (null ∷ vs) = first_string vs
  first_string (v ∷ vs) =
      let others = first_string vs in let s = strip (to_str v) in if s == "" then others else s

  unfoldable pub normalize_stage : String → String
  unfolding strip replace clip
  normalize_stage value =
      let stage = replace "-" "_" (py.lower (strip value)) in
      if elem stage workflow_stages then stage else clip 80 stage

  unfoldable pub clean_object : Json → Fields
  unfolding sanitize_untrusted_value
  clean_object value = elim (fields? value) [
    | none ↦ end
    | some d ↦ mapping (sanitize_untrusted_value (obj d))
  ]

  unfoldable pub clean_evidence : Json → Fields
  unfolding clean_object clean_gate_name replace str_or_empty to_str or_value
  clean_evidence value =
      let cleaned = clean_object value in
      let kind = clean_gate_name (get "kind" cleaned) in
      let status =
        replace "-" "_" (py.lower (to_str (or_value (get "status" cleaned) (text "unknown")))) in
      if kind == ""
      then end
      else put "status"
          (text (
            if elem status ("passed" ∷ "failed" ∷ "stale" ∷ "unknown" ∷ [])
            then status
            else "unknown"))
          (put "kind" (text kind) cleaned)

  unfoldable pub artifact_from_refs : Json → Fields
  unfolding clean_object first_string
  artifact_from_refs value =
      let refs = clean_object value in
      let head_sha =
        first_string
          (get "headSha" refs ∷ get "head_sha" refs ∷ get "commitSha" refs ∷ get "sha" refs ∷ []) in
      let revision =
        first_string
          (get "artifactRevision" refs ∷ get "artifact_revision" refs ∷ get "revision" refs ∷ []) in
      if not (head_sha == "")
      then field "kind" (text "git_commit") (field "id" (text head_sha) end)
      else if not (revision == "")
      then field "kind" (text "artifact_revision") (field "id" (text revision) end)
      else end

  unfoldable pub fingerprint_json : Fields → String
  unfolding clip
  fingerprint_json end = ""
  fingerprint_json d = clip 16 (py.sha256_hex (py.json_dumps (obj d)))

  unfoldable pub normalize_workflow_event : Fields → EnvelopeFields → Option WorkflowEvent
  unfolding first_string normalize_stage clean_object clean_evidence artifact_from_refs
      fingerprint_json redact_metadata_text redact_secret_text or_value
  normalize_workflow_event d fields =
      let workflow_id = first_string (
        get "workflowId" d
        ∷ get_path d "workflow" "id"
        ∷ get_path d "workflow" "workflow_id"
        ∷ get_path d "subject" "workflow_id"
        ∷ get_path d "subject" "workflowId"
        ∷ []) in
      let stage = normalize_stage (
        first_string (
          get "stage" d
          ∷ get_path d "workflow" "stage"
          ∷ get_path d "payload" "stage"
          ∷ get_path d "payload" "phase"
          ∷ [])) in
      let given = clean_object (
        or_value (get "artifact" d)
          (or_value (get_path d "payload" "artifact") (get_path d "subject" "artifact"))) in
      let artifact = or_dict given (artifact_from_refs (get "refs" d)) in
      let candidate = clean_object (
        or_value (get "candidate" d)
          (or_value (get_path d "payload" "candidate") (get_path d "subject" "candidate"))) in
      let evidence =
        clean_evidence (or_value (get "evidence" d) (get_path d "payload" "evidence")) in
      if workflow_id == ""
      then none
      else some (record {
        workflow_id = redact_metadata_text workflow_id;
        stage = stage;
        artifact = artifact;
        artifact_fingerprint = fingerprint_json artifact;
        candidate = candidate;
        evidence = evidence;
        last_event_id = redact_metadata_text fields.event_id;
        last_event_type = redact_metadata_text fields.event_type;
        last_summary = redact_secret_text fields.summary 1000 500;
      })
