-- ===== src/Kanban/Transform.antt =====
-- `transform_kanban_task_event`: an event is coalesced, suppressed, or emitted as an envelope.
use hermes_plugin_async_thre.Prelude.{
  Bool, List, Option, String, [], elem, false, if◌then◌else◌, is_empty, leb, none, not, pos, some,
  ℕ, ℤ, ◌&&◌, ◌-◌, ◌<>◌, ◌==◌, ◌||◌, ◌∷◌,
}
use hermes_plugin_async_thre.Emitter.{build_event_envelope}
use hermes_plugin_async_thre.Privacy.{redact_secret_text, sanitize_untrusted_value}
use hermes_plugin_async_thre.Python.Except.{Except, ok, ◌>>=◌}
use hermes_plugin_async_thre.Python.Json.{
  Fields, bool, end, field, get, get_or, int, is_empty_dict, mapping, null, obj, put, text,
}
use hermes_plugin_async_thre.Python.Runtime.{Runtime}
use hermes_plugin_async_thre.Python.Text.{
  clean_token, clip, has_prefix, replace, strip, text_length,
}
use hermes_plugin_async_thre.Python.Values.{or_value, str_or_empty, to_str, truthy}
use hermes_plugin_async_thre.Security.{is_missing}
use hermes_plugin_async_thre.SourceFilters.{
  kanban_default_event_types, kanban_default_material_kinds, kanban_event_prefix,
  source_filter_allows_event, string_list_of_fields,
}

-- `KanbanTaskEvent`; a row's id is a positive number
pub record KanbanTaskEvent : Type 0 where
  pub id : ℕ
  pub task_id : String
  pub run_id : Option ℤ
  pub kind : String
  pub payload : Fields
  pub payload_malformed : Bool
  pub created_at : ℤ
  pub task : Fields

-- the dict that the transform returns, without the keys that repeat the event
pub data KanbanAction : Type 0 where
  -- `would_coalesce`
  coalesce_routine : KanbanAction
  -- `suppressed`, by its three reasons
  routine_event not_material : KanbanAction
  event_type_not_allowed : String → KanbanAction
  -- `would_emit`, with the event's type and its envelope
  would_emit : String → Fields → KanbanAction

abbrev pub noisy_kinds : List String
noisy_kinds = "heartbeat" ∷ "claimed" ∷ "spawned" ∷ "promoted" ∷ "commented" ∷ []

abbrev pub detail_keys : List String
detail_keys = "reason" ∷ "summary" ∷ "error" ∷ "outcome" ∷ []

-- `{key: item for ... if item is not None}`
abbrev pub drop_nulls : Fields → Fields
drop_nulls end = end
drop_nulls (field k null d) = drop_nulls d
drop_nulls (field k v d) = field k v (drop_nulls d)

module _ ⦃py : Runtime⦄ where
  -- runs of white space as one space
  collapse : String → String
  unfolding has_prefix
  collapse String.[] = ""
  collapse (String.◌∷◌ c s) =
      let rest = collapse s in
      if py.is_space c
      then (if has_prefix " " rest then rest else " " <> rest)
      else String.◌∷◌ c rest

  -- `_clip`
  unfoldable pub clip_words : String → ℕ → String
  unfolding collapse
  clip_words value max_len =
      let shown = strip (collapse value) in
      if leb (text_length shown) max_len then shown else clip (max_len - 1) shown <> "…"

  unfoldable pub is_review_required : Fields → Bool
  is_review_required payload =
      let reason = replace "-" "_" (
        py.lower (
          strip (
            to_str
              (or_value (or_value (get "reason" payload) (get "summary" payload)) (text ""))))) in
      has_prefix "review_required:" reason
      || has_prefix "review_required" reason
      || has_prefix "review required" reason

  -- `_mapped_material_kind`; "" where the event is not material
  unfoldable pub mapped_material_kind : String → Fields → String
  mapped_material_kind kind payload =
      if kind == "blocked" && is_review_required payload
      then "ready_for_review"
      else if elem kind kanban_default_material_kinds
      then kind
      else ""

  -- `_coalesce_enabled_for`
  unfoldable pub coalesce_enabled_for : String → Fields → Bool
  coalesce_enabled_for kind coalesce =
      let mode =
        py.lower (
          to_str (or_value (or_value (get "mode" coalesce) (get "strategy" coalesce)) (text ""))) in
      let enabled =
        truthy (get "enabled" coalesce)
        || truthy (get "digest" coalesce)
        || elem mode ("digest" ∷ "debounce" ∷ "coalesce" ∷ []) in
      let kinds = string_list_of_fields coalesce ("eventKinds" ∷ "event_kinds" ∷ "kinds" ∷ []) in
      if is_empty_dict coalesce then false else if is_empty kinds then enabled else elem kind kinds

  -- the first of some keys whose value is neither `None` nor ""
  first_detail : Fields → List String → String
  first_detail payload [] = ""
  first_detail payload (k ∷ ks) =
      let others = first_detail payload ks in
      if is_missing (get k payload)
      then others
      else clip_words (redact_secret_text (str_or_empty (get k payload)) 1000 500) 500

  -- `_event_detail`
  unfoldable pub event_detail : KanbanTaskEvent → String
  unfolding first_detail
  event_detail event =
      if is_empty_dict event.payload
      then (if event.payload_malformed then "payload parse error" else "")
      else first_detail event.payload detail_keys

  -- `_safe_mapping`
  unfoldable pub safe_mapping : Fields → Fields
  safe_mapping value = mapping (sanitize_untrusted_value (obj (drop_nulls value)))

  abbrev pub id_text : ℕ → String
  id_text n = to_str (int (pos n))

  -- `_series_key`
  abbrev pub series_key : String → String → String
  series_key board task_id = "kanban:" <> board <> ":" <> task_id

  -- `f"{board_name}:{event.task_id}:{event.id}"`
  abbrev pub upstream_id : String → KanbanTaskEvent → String
  upstream_id board event = board <> ":" <> event.task_id <> ":" <> id_text event.id

  unfoldable pub kanban_subject : KanbanTaskEvent → String → Fields
  kanban_subject event board = safe_mapping (
      field "board" (text board) (
        field "task" (text event.task_id) (
          field "title" (get_or "title" (text "") event.task) (
            field "assignee" (get_or "assignee" (text "") event.task) (
              field "status" (get_or "status" (text "") event.task)
                (field "priority" (get "priority" event.task) end))))))

  unfoldable pub kanban_payload : KanbanTaskEvent → String → Fields
  kanban_payload event stage =
      let payload = safe_mapping (
        field "status" (text stage) (
          field "kanbanEventKind" (text event.kind) (
            field "taskEventId" (int (pos event.id)) (
              field "taskId" (text event.task_id) (
                field "runId" (elim event.run_id [ none ↦ null | some r ↦ int r ])
                  (field "payloadParseError" (bool event.payload_malformed) end)))))) in
      if event_detail event == ""
      then payload
      else put "eventDetail" (text (event_detail event)) payload

  -- `_build_kanban_envelope`
  unfoldable pub build_kanban_envelope :
      KanbanTaskEvent → String → String → String → String → String → String → Except Fields
  build_kanban_envelope event board thread_key producer_id event_id event_type stage =
      let series = text (series_key board event.task_id) in
      build_event_envelope thread_key producer_id event_id event_type
        ("Kanban task " <> event.task_id <> " " <> replace "_" " " stage)
        (kanban_payload event stage) (some (kanban_subject event board))
        (text (py.iso_of_epoch event.created_at)) "compact"
        (field "seriesKey" series (field "workflowId" series (field "stage" (text stage) end)))

  -- `transform_kanban_task_event`
  unfoldable pub transform_kanban_task_event :
      KanbanTaskEvent → String → String → String → Fields → Fields → Except KanbanAction
  transform_kanban_task_event event board thread_key producer_id event_filter coalesce =
      let board_name = clean_token board "default" 100 in
      let producer = clean_token producer_id "ath-kanban-bridge" 100 in
      let event_kind = clean_token event.kind "" 80 in
      let mapped_kind = mapped_material_kind event_kind event.payload in
      let event_type = kanban_event_prefix <> mapped_kind in
      if elem event_kind noisy_kinds
      then ok (if coalesce_enabled_for event_kind coalesce then coalesce_routine else routine_event)
      else if mapped_kind == ""
      then ok not_material
      else if not (
          source_filter_allows_event "kanban" event_type (obj event_filter)
            kanban_default_event_types)
      then ok (event_type_not_allowed event_type)
      else do
        envelope ←
            build_kanban_envelope event board_name thread_key producer
              (upstream_id board_name event) event_type mapped_kind
        ok (would_emit event_type envelope)
