-- ===== src/SourceFilters.antt =====
-- async_threads/source_filters.py: the event types that a source binding's filter stands for.
pub mod Resolved
use Prim.Native.Char.{code}
use hermes_plugin_async_thre.Prelude.{
  Bool, List, Option, String, [], drop_text, elem, if◌then◌else◌, is_empty, map, nat_eq, none, not,
  some, true, ◌&&◌, ◌++◌, ◌<>◌, ◌==◌, ◌||◌, ◌∷◌,
}
use hermes_plugin_async_thre.Python.Json.{Fields, Json, fields?, get, text}
use hermes_plugin_async_thre.Python.Runtime.{Runtime}
use hermes_plugin_async_thre.Python.Text.{keep_chars, replace, split, strip}
use hermes_plugin_async_thre.Python.Values.{iterate, stripped, to_str}

abbrev pub kanban_event_prefix : String
kanban_event_prefix = "kanban.task."

abbrev pub kanban_default_material_kinds : List String
kanban_default_material_kinds = "completed" ∷ "blocked" ∷ "gave_up" ∷ "crashed" ∷ "timed_out" ∷ []

abbrev pub kanban_ready_for_review_kind : String
kanban_ready_for_review_kind = "ready_for_review"

abbrev pub kanban_default_event_types : List String
kanban_default_event_types =
    map (λ kind. kanban_event_prefix <> kind)
      (kanban_default_material_kinds ++ kanban_ready_for_review_kind ∷ [])

module _ ⦃py : Runtime⦄ where
  -- `_string_list_from_keys`: the first key whose value is a text or an iterable decides. Of a text
  -- the comma-separated parts count, of an iterable the items.
  unfoldable pub string_list : Json → Option (List String)
  unfolding stripped iterate to_str split
  string_list (text s) = some (stripped (split "," s))
  string_list v = elim (iterate v) [ none ↦ none | some xs ↦ some (stripped (map to_str xs)) ]

  unfoldable pub string_list_of_fields : Fields → List String → List String
  unfolding string_list
  string_list_of_fields d [] = []
  string_list_of_fields d (key ∷ rest) =
      let others = string_list_of_fields d rest in
      elim (string_list (get key d)) [ some xs ↦ xs | none ↦ others ]

  unfoldable pub string_list_from_keys : Json → List String → List String
  unfolding string_list_of_fields
  string_list_from_keys value names = elim (fields? value) [
    | none ↦ []
    | some d ↦ string_list_of_fields d names
  ]

  -- `dict.fromkeys`
  unfoldable pub first_occurrences : List String → List String
  first_occurrences [] = []
  first_occurrences (x ∷ xs) = x ∷ drop_text x (first_occurrences xs)

  unfoldable pub dedupe : List String → List String
  unfolding stripped first_occurrences
  dedupe values = first_occurrences (stripped values)

  unfoldable pub normalize_kanban_kind : String → String
  unfolding strip replace keep_chars
  normalize_kanban_kind kind =
      let value = replace " " "_" (replace "-" "_" (py.lower (strip kind))) in
      if value == "review_required"
      then kanban_ready_for_review_kind
      else keep_chars
          (λ c.
            py.is_alnum c || nat_eq (code c) b'_' || nat_eq (code c) b'.' || nat_eq (code c) b':')
          value

  unfoldable pub kanban_event_type_for_kind : String → String
  unfolding normalize_kanban_kind
  kanban_event_type_for_kind kind =
      let normalized = normalize_kanban_kind kind in
      if normalized == "" then "" else kanban_event_prefix <> normalized

  unfoldable pub source_name : String → String
  unfolding strip replace
  source_name source = replace " " "-" (replace "_" "-" (py.lower (strip source)))

  unfoldable pub source_binding_event_types : String → Json → List String → List String
  unfolding string_list_from_keys dedupe kanban_event_type_for_kind source_name
  source_binding_event_types source event_filter default_event_types =
      let exact =
        string_list_from_keys event_filter
          ("eventTypes" ∷ "event_types" ∷ "allowedEventTypes" ∷ "allowed_event_types" ∷ []) in
      let kinds =
        string_list_from_keys event_filter ("eventKinds" ∷ "event_kinds" ∷ "kinds" ∷ []) in
      if not (is_empty exact)
      then dedupe exact
      else if source_name source == "kanban" && not (is_empty kinds)
      then dedupe (map kanban_event_type_for_kind kinds)
      else dedupe default_event_types

  -- A filter that resolves to nothing allows every event type.
  unfoldable pub source_filter_allows_event : String → String → Json → List String → Bool
  source_filter_allows_event source event_type event_filter default_event_types =
      let allowed = source_binding_event_types source event_filter default_event_types in
      if is_empty allowed then true else elem event_type allowed
