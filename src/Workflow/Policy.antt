-- ===== src/Workflow/Policy.antt =====
-- `WorkflowPolicy`, and the cleaning of gate names.
use Prim.Native.Char.{code}
use hermes_plugin_async_thre.Prelude.{
  Bool, List, String, [], false, if◌then◌else◌, map, nat_eq, true, ◌==◌, ◌||◌, ◌∷◌,
}
use hermes_plugin_async_thre.Python.Json.{Fields, Json, arr, end, field, get, text, texts}
use hermes_plugin_async_thre.Python.Runtime.{Runtime}
use hermes_plugin_async_thre.Python.Text.{clip, keep_chars, replace, split, strip}
use hermes_plugin_async_thre.Python.Values.{items_of, or_value, str_or_empty, to_str}
use hermes_plugin_async_thre.SourceFilters.{first_occurrences}

pub data GateMode : Type 0 where
  serial parallel : GateMode

pub record WorkflowPolicy : Type 0 where
  pub gate_order : List String
  pub gate_mode : GateMode
  pub stale_on_artifact_change : List String
  pub candidate_required : List String

abbrev pub default_workflow_policy : WorkflowPolicy
default_workflow_policy = record {
  gate_order = [];
  gate_mode = serial;
  stale_on_artifact_change = [];
  candidate_required = [];
}

abbrev pub is_serial : GateMode → Bool
is_serial serial = true
is_serial parallel = false

abbrev pub gate_mode_text : GateMode → String
gate_mode_text serial = "serial"
gate_mode_text parallel = "parallel"

-- the object that `to_json` writes
unfoldable pub workflow_policy_to_mapping : WorkflowPolicy → Fields
workflow_policy_to_mapping p = field "gate_order" (arr (texts p.gate_order)) (
    field "gate_mode" (text (gate_mode_text p.gate_mode)) (
      field "stale_on_artifact_change" (arr (texts p.stale_on_artifact_change))
        (field "candidate_required" (arr (texts p.candidate_required)) end)))

module _ ⦃py : Runtime⦄ where
  unfoldable pub clean_gate_name : Json → String
  unfolding strip replace keep_chars clip str_or_empty
  clean_gate_name value =
      let name = replace "-" "_" (py.lower (strip (str_or_empty value))) in
      clip 80 (
        keep_chars
          (λ c.
            py.is_alnum c || nat_eq (code c) b'_' || nat_eq (code c) b'.' || nat_eq (code c) b':')
          name)

  clean_gate_names : List Json → List String
  unfolding clean_gate_name
  clean_gate_names [] = []
  clean_gate_names (x ∷ xs) =
      let rest = clean_gate_names xs in
      let name = clean_gate_name x in if name == "" then rest else name ∷ rest

  -- `_clean_gate_list`: a text is split at its commas, a list is taken as it is, all else is empty
  unfoldable pub clean_gate_list : Json → List String
  unfolding clean_gate_names first_occurrences split items_of
  clean_gate_list (text s) = first_occurrences (clean_gate_names (map text (split "," s)))
  clean_gate_list (arr xs) = first_occurrences (clean_gate_names (items_of xs))
  clean_gate_list _ = []

  -- `WorkflowPolicy.from_mapping`, of a dict
  unfoldable pub workflow_policy_from_mapping : Fields → WorkflowPolicy
  unfolding clean_gate_list or_value str_or_empty
  workflow_policy_from_mapping value =
      let mode =
        py.lower (
          to_str
            (or_value (or_value (get "gate_mode" value) (get "mode" value)) (text "serial"))) in
      record {
        gate_order = clean_gate_list (or_value (get "gate_order" value) (get "gates" value));
        gate_mode = if mode == "parallel" then parallel else serial;
        stale_on_artifact_change = clean_gate_list (get "stale_on_artifact_change" value);
        candidate_required = clean_gate_list (get "candidate_required" value);
      }
