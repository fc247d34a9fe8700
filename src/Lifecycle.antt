-- ===== src/Lifecycle.antt =====
-- async_threads/lifecycle.py: which events end a listener, and what then happens to it.
use hermes_plugin_async_thre.Prelude.{
  Bool, List, String, [], any, elem, false, if◌then◌else◌, map, none, not, some, ◌&&◌, ◌==◌, ◌||◌,
  ◌∷◌,
}
use hermes_plugin_async_thre.Python.Json.{
  Fields, Json, arr, bool, end, field, fields?, get, get_or, null, obj, text, texts,
}
use hermes_plugin_async_thre.Python.Runtime.{Runtime}
use hermes_plugin_async_thre.Python.Text.{split, strip}
use hermes_plugin_async_thre.Python.Values.{iterate, str_or_empty, stripped, to_str, truthy}

pub record LifecyclePolicy : Type 0 where
  pub terminal_event_types : List String
  pub terminal_stages : List String
  pub auto_retire_on_terminal : Bool
  pub shared_listener : Bool

abbrev pub default_terminal_event_patterns : List String
default_terminal_event_patterns =
    "*.goal.finished" ∷ "*.phase.finished" ∷ "*.session.finished" ∷ "*.run.finished" ∷ []

abbrev pub default_terminal_stages : List String
default_terminal_stages = "released" ∷ "cancelled" ∷ "canceled" ∷ []

abbrev pub default_lifecycle_policy : LifecyclePolicy
default_lifecycle_policy = record {
  terminal_event_types = default_terminal_event_patterns;
  terminal_stages = default_terminal_stages;
  auto_retire_on_terminal = false;
  shared_listener = false;
}

pub data TerminalAction : Type 0 where
  shared_listener_kept_enabled auto_retired warn_only : TerminalAction

abbrev pub terminal_action_text : TerminalAction → String
terminal_action_text shared_listener_kept_enabled = "shared_listener_kept_enabled"
terminal_action_text auto_retired = "auto_retired"
terminal_action_text warn_only = "warn_only"

-- `terminal_action(policy)`
unfoldable pub terminal_action : LifecyclePolicy → TerminalAction
terminal_action policy =
    if policy.shared_listener
    then shared_listener_kept_enabled
    else if policy.auto_retire_on_terminal
    then auto_retired
    else warn_only

-- `to_mapping`
unfoldable pub lifecycle_to_mapping : LifecyclePolicy → Fields
lifecycle_to_mapping p = field "terminal_event_types" (arr (texts p.terminal_event_types)) (
    field "terminal_stages" (arr (texts p.terminal_stages)) (
      field "auto_retire_on_terminal" (bool p.auto_retire_on_terminal)
        (field "shared_listener" (bool p.shared_listener) end)))

-- `public_summary`
unfoldable pub lifecycle_summary : LifecyclePolicy → Fields
lifecycle_summary p = field "terminalEventTypes" (arr (texts p.terminal_event_types)) (
    field "terminalStages" (arr (texts p.terminal_stages)) (
      field "autoRetireOnTerminal" (bool p.auto_retire_on_terminal)
        (field "sharedListener" (bool p.shared_listener) end)))

module _ ⦃py : Runtime⦄ where
  -- `_as_tuple`
  unfoldable pub as_tuple : Json → List String
  unfolding stripped split iterate to_str
  as_tuple null = []
  as_tuple (text s) = stripped (split "," s)
  as_tuple v = elim (iterate v) [
    | none ↦ stripped (to_str v ∷ [])
    | some items ↦ stripped (map to_str items)
  ]

  -- the value of the first key that is not `None`, read as a tuple
  abbrev tuple_or : Fields → String → String → List String → List String
  tuple_or value a b default = elim (get a value) [
    | null ↦ elim (get b value) [ null ↦ default | v ↦ as_tuple v ]
    | v ↦ as_tuple v
  ]

  -- `LifecyclePolicy.from_mapping`
  unfoldable pub lifecycle_from_mapping : Json → LifecyclePolicy
  unfolding as_tuple truthy
  lifecycle_from_mapping (obj value) = record {
    terminal_event_types =
        tuple_or value "terminal_event_types" "terminalEventTypes" default_terminal_event_patterns;
    terminal_stages = tuple_or value "terminal_stages" "terminalStages" default_terminal_stages;
    auto_retire_on_terminal =
        truthy (
          get_or "auto_retire_on_terminal" (get_or "autoRetireOnTerminal" (bool false) value)
            value);
    shared_listener =
        truthy (get_or "shared_listener" (get_or "sharedListener" (bool false) value) value);
  }
  lifecycle_from_mapping _ = default_lifecycle_policy

  unfoldable pub matches_event_pattern : String → String → Bool
  unfolding strip
  matches_event_pattern event_type pattern_text =
      let normalized = py.lower (strip pattern_text) in
      if normalized == "" then false else py.fnmatch event_type normalized

  -- the first of `stage` and `workflowStage` that is not blank
  unfoldable pub stage_in : Fields → String
  unfolding strip str_or_empty
  stage_in d =
      let stage = py.lower (strip (str_or_empty (get "stage" d))) in
      if stage == "" then py.lower (strip (str_or_empty (get "workflowStage" d))) else stage

  unfoldable pub terminal_stage_value : Fields → String
  unfolding stage_in
  terminal_stage_value d =
      let at_top = stage_in d in
      if at_top == ""
      then elim (fields? (get "payload" d)) [ none ↦ "" | some payload ↦ stage_in payload ]
      else at_top

  -- `is_terminal_event(data, fields, policy)`
  unfoldable pub is_terminal_event : Fields → String → LifecyclePolicy → Bool
  unfolding strip matches_event_pattern terminal_stage_value
  is_terminal_event d event_type policy =
      let name = py.lower (strip event_type) in
      let stage = terminal_stage_value d in
      not (name == "") && any (matches_event_pattern name) policy.terminal_event_types
      || not (stage == "") && elem stage (map py.lower policy.terminal_stages)
