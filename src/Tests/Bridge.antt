-- ===== src/Tests/Bridge.antt =====
-- The theorem on the Kanban bridge, for a task that waits for review.
use hermes_plugin_async_thre.Prelude.{
  [], elem, false, is_empty, none, pos, refl, some, true, ◌==◌, ◌||◌, ◌∷◌, ◌≡◌,
}
use hermes_plugin_async_thre.Emitter.{build_event_envelope, envelope_of, validate_event_envelope}
use hermes_plugin_async_thre.Kanban.Allowed.{compatible_binding_emits_accepted}
use hermes_plugin_async_thre.Kanban.Transform.{
  KanbanTaskEvent, build_kanban_envelope, clip_words, coalesce_enabled_for, event_detail,
  is_review_required, kanban_payload, kanban_subject, mapped_material_kind, safe_mapping,
  transform_kanban_task_event, would_emit,
}
use hermes_plugin_async_thre.Privacy.{
  clip_output, redact_secret_text, sanitize, sanitize_fields, sanitize_items,
  sanitize_untrusted_value,
}
use hermes_plugin_async_thre.Python.Except.{ok}
use hermes_plugin_async_thre.Python.Json.{Fields, Json, end, field, obj, text}
use hermes_plugin_async_thre.Python.Text.{
  clean_token, clip, has_prefix, is_token_char, keep_chars, lstrip, replace, rstrip, split, strip,
  text_length,
}
use hermes_plugin_async_thre.Python.Values.{
  chars_of, items_of, iterate, or_value, str_or_empty, stripped, to_str, truthy,
}
use hermes_plugin_async_thre.Registry.Bindings.{
  compatible, missing_event_types, source_binding_compatibility,
}
use hermes_plugin_async_thre.Registry.Handles.{get_handle}
use hermes_plugin_async_thre.Registry.Rows.{Db, Handle, SourceBinding, active, empty_db}
use hermes_plugin_async_thre.Security.{event_field, extract_envelope_fields}
use hermes_plugin_async_thre.SourceFilters.{
  dedupe, first_occurrences, kanban_default_event_types, kanban_event_type_for_kind,
  normalize_kanban_kind, source_binding_event_types, source_filter_allows_event, source_name,
  string_list, string_list_from_keys, string_list_of_fields,
}
use hermes_plugin_async_thre.Tests.AsciiRuntime.{ascii_runtime}
use hermes_plugin_async_thre.Tests.Fixtures.{sample_handle}

abbrev pub board_handle : Handle
board_handle = record sample_handle {
  producer_id = "bridge";
  allowed_event_types = "kanban.task.ready_for_review" ∷ [];
}

abbrev pub board_binding : SourceBinding
board_binding = record {
  binding_id = "athb_1";
  owner_user_id = "u1";
  source = "kanban";
  source_ref = end;
  listener_thread_key = "ath_1";
  producer_id = "bridge";
  event_filter = field "kinds" (text "review-required") end;
  transform = end;
  cursor = end;
  coalesce = end;
  ingress_digest_policy = end;
  delivery_policy = "agent_queue";
  status = active;
  created_at = "t0";
  updated_at = "t0";
}

abbrev pub board_db : Db
board_db = record empty_db { handles = board_handle ∷ []; source_bindings = board_binding ∷ [] }

abbrev pub review_event : KanbanTaskEvent
review_event = record {
  id = 7;
  task_id = "T1";
  run_id = none;
  kind = "blocked";
  payload = field "reason" (text "Review-required: look") end;
  payload_malformed = false;
  created_at = pos 100;
  task = field "title" (text "Fix") end;
}

board-is_known : get_handle "ath_1" board_db ≡ some board_handle
unfolding get_handle
board-is_known = refl

board-is_compatible : source_binding_compatibility board_binding board_db ≡ compatible
unfolding chars_of dedupe first_occurrences get_handle items_of iterate kanban_event_type_for_kind
    keep_chars lstrip missing_event_types normalize_kanban_kind replace rstrip
    source_binding_compatibility source_binding_event_types source_name split string_list
    string_list_from_keys string_list_of_fields strip stripped to_str
board-is_compatible = refl

board-has_filter :
    is_empty (
      source_binding_event_types "kanban"
        (obj board_binding.event_filter)
        kanban_default_event_types)
    ≡ false
unfolding chars_of dedupe first_occurrences items_of iterate kanban_event_type_for_kind keep_chars
    lstrip normalize_kanban_kind replace rstrip source_binding_event_types source_name split
    string_list string_list_from_keys string_list_of_fields strip stripped to_str
board-has_filter = refl

abbrev review_series : Json
review_series = text "kanban:default:T1"

abbrev pub review_envelope : Fields
review_envelope =
    envelope_of "ath_1" "bridge" "default:T1:1" "kanban.task.ready_for_review"
      "Kanban task T1 ready for review" (kanban_payload review_event "ready_for_review")
      (some (kanban_subject review_event "default")) (text "1970-01-01T00:01:40Z") "compact"
      (field "seriesKey" review_series
        (field "workflowId" review_series (field "stage" (text "ready_for_review") end)))

pub review-is_emitted :
    transform_kanban_task_event review_event "default" "ath_1" "bridge" board_binding.event_filter
      board_binding.coalesce
    ≡ ok (would_emit "kanban.task.ready_for_review" review_envelope)
unfolding build_event_envelope build_kanban_envelope chars_of clean_token clip clip_output
    clip_words coalesce_enabled_for dedupe envelope_of event_detail event_field
    extract_envelope_fields first_occurrences has_prefix is_review_required is_token_char items_of
    iterate kanban_event_type_for_kind kanban_payload kanban_subject keep_chars lstrip
    mapped_material_kind normalize_kanban_kind or_value redact_secret_text replace rstrip
    safe_mapping sanitize sanitize_fields sanitize_items sanitize_untrusted_value
    source_binding_event_types source_filter_allows_event source_name split str_or_empty string_list
    string_list_from_keys string_list_of_fields strip stripped text_length to_str
    transform_kanban_task_event truthy validate_event_envelope
review-is_emitted = refl

compatible_binding_emits_accepted_example :
    (true ≡ true)
    × (("bridge" == "bridge") ≡ true)
    × ((is_empty board_handle.allowed_event_types
          || elem "kanban.task.ready_for_review" board_handle.allowed_event_types)
        ≡ true)
compatible_binding_emits_accepted_example =
    compatible_binding_emits_accepted board_binding board_db board_handle review_event "default"
      "bridge" "kanban.task.ready_for_review" review_envelope refl board-is_known
      board-is_compatible board-has_filter review-is_emitted
