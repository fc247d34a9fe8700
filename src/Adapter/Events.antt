-- ===== src/Adapter/Events.antt =====
-- Which events are routine, and which have priority.
use hermes_plugin_async_thre.Prelude.{
  Bool, List, String, [], any, elem, if◌then◌else◌, ltb, none, not, some, ◌&&◌, ◌==◌, ◌||◌, ◌∷◌,
}
use hermes_plugin_async_thre.Python.Json.{Fields, Json, fields?, get, get_or, null, text}
use hermes_plugin_async_thre.Python.Runtime.{Runtime}
use hermes_plugin_async_thre.Python.Text.{contains, replace, strip}
use hermes_plugin_async_thre.Python.Values.{str_or_empty, to_str}
use hermes_plugin_async_thre.Registry.Rows.{Handle}
use hermes_plugin_async_thre.Security.{EnvelopeFields}

abbrev pub tail_modes : List String
tail_modes = "none" ∷ "compact" ∷ "debug" ∷ []

abbrev pub routine_markers : List String
routine_markers = "started" ∷ "progress" ∷ []

abbrev pub priority_markers : List String
priority_markers =
    "finished" ∷ "completed" ∷ "succeeded" ∷ "done" ∷ "failed" ∷ "failure" ∷ "error" ∷ "blocked"
    ∷ "needs_attention" ∷ "approval" ∷ "timeout" ∷ "watchdog" ∷ []

abbrev pub priority_states : List String
priority_states =
    "finished" ∷ "completed" ∷ "succeeded" ∷ "done" ∷ "failed" ∷ "failure" ∷ "errored" ∷ "error"
    ∷ "blocked" ∷ "needs_attention" ∷ []

-- `isinstance(payload, Mapping)` and `payload.get(key)`
abbrev pub payload_entry : String → Fields → Json
payload_entry key d = elim (fields? (get "payload" d)) [ none ↦ null | some p ↦ get key p ]

module _ ⦃py : Runtime⦄ where
  -- the first candidate that names a tail mode
  first_tail_mode : List Json → String
  unfolding strip str_or_empty
  first_tail_mode [] = "compact"
  first_tail_mode (v ∷ vs) =
      let others = first_tail_mode vs in
      let mode = py.lower (strip (str_or_empty v)) in if elem mode tail_modes then mode else others

  -- `tail_mode_from_event` of rendering.py
  unfoldable pub tail_mode_from_event : Fields → String
  unfolding first_tail_mode
  tail_mode_from_event d = first_tail_mode (
      get "tailMode" d
      ∷ get "tail_mode" d
      ∷ payload_entry "tailMode" d
      ∷ payload_entry "tail_mode" d
      ∷ [])

  unfoldable pub is_routine_event : EnvelopeFields → Bool
  unfolding contains
  is_routine_event fields =
      let event_type = py.lower fields.event_type in
      any (λ marker. contains marker event_type) routine_markers

  -- `str(payload.get(key, "")).lower().replace("-", "_")`, "" where the payload is no dict
  state_word : Fields → String → String
  unfolding replace to_str
  state_word d key = elim (fields? (get "payload" d)) [
    | none ↦ ""
    | some p ↦ replace "-" "_" (py.lower (to_str (get_or key (text "") p)))
  ]

  unfoldable pub is_priority_event : Fields → EnvelopeFields → Bool
  unfolding contains replace tail_mode_from_event state_word
  is_priority_event d fields =
      let event_type = replace "-" "_" (py.lower fields.event_type) in
      any (λ marker. contains marker event_type) priority_markers
      || tail_mode_from_event d == "debug"
      || any (λ key. elem (state_word d key) priority_states) ("state" ∷ "status" ∷ "verdict" ∷ [])

  -- `_should_coalesce`
  unfoldable pub should_coalesce : Handle → Fields → EnvelopeFields → Bool
  unfolding is_routine_event is_priority_event
  should_coalesce h d fields =
      h.policy == "agent_queue"
      && ltb 0 h.debounce_seconds
      && is_routine_event fields
      && not (is_priority_event d fields)
