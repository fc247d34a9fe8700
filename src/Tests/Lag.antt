-- ===== src/Tests/Lag.antt =====
-- The status of a binding whose board has two events after the cursor.
use hermes_plugin_async_thre.Prelude.{List, [], is_empty, nat_eq, refl, some, true, ◌∷◌, ◌≡◌}
use hermes_plugin_async_thre.Emitter.{build_event_envelope, envelope_of, validate_event_envelope}
use hermes_plugin_async_thre.Kanban.Board.{
  BoardRead, board_of, board_rows, count_actions, db_path_of, dry_run_kanban_source_binding,
  insert_by_id, is_compatible, kanban_cursor, max_seen, nonnegative_int, order_by_id,
  read_kanban_task_events, task_of, transform_all,
}
use hermes_plugin_async_thre.Kanban.Transform.{
  KanbanTaskEvent, build_kanban_envelope, clip_words, coalesce_enabled_for, event_detail,
  is_review_required, kanban_payload, kanban_subject, mapped_material_kind, safe_mapping,
  transform_kanban_task_event,
}
use hermes_plugin_async_thre.Privacy.{
  clip_output, fingerprint, redact_metadata, redact_metadata_text, redact_secret_text, sanitize,
  sanitize_fields, sanitize_items, sanitize_untrusted_value,
}
use hermes_plugin_async_thre.Python.Except.{ok}
use hermes_plugin_async_thre.Python.Json.{Json, text}
use hermes_plugin_async_thre.Python.Text.{
  clean_token, clip, contains, has_prefix, is_token_char, keep_chars, lstrip, replace, rstrip,
  split, strip, text_length,
}
use hermes_plugin_async_thre.Python.Values.{
  chars_of, is_type_or_value_error, items_of, iterate, or_default, or_value, str_or_empty, stripped,
  to_int, to_str, truthy,
}
use hermes_plugin_async_thre.Registry.Bindings.{missing_event_types, source_binding_compatibility}
use hermes_plugin_async_thre.Registry.Cursor.{cursor_event_id, first_position}
use hermes_plugin_async_thre.Registry.Handles.{get_handle}
use hermes_plugin_async_thre.Security.{event_field, extract_envelope_fields}
use hermes_plugin_async_thre.SourceFilters.{
  dedupe, first_occurrences, kanban_event_type_for_kind, normalize_kanban_kind,
  source_binding_event_types, source_filter_allows_event, source_name, string_list,
  string_list_from_keys, string_list_of_fields,
}
use hermes_plugin_async_thre.SourceRunner.Lag.{lag_is_next_distance, next_distance}
use hermes_plugin_async_thre.SourceRunner.Run.{last_row, source_binding_outbox_status}
use hermes_plugin_async_thre.SourceRunner.Status.{
  RunnerStatus, lag_of, source_binding_runner_status,
}
use hermes_plugin_async_thre.Tests.AsciiRuntime.{ascii_runtime}
use hermes_plugin_async_thre.Tests.Bridge.{board_binding, board_db, review_event}
use hermes_plugin_async_thre.Workflow.Gates.{gate_status}

abbrev rows : List KanbanTaskEvent
rows = record review_event { id = 9; task_id = "T2" } ∷ review_event ∷ []

abbrev open_rows : Json → BoardRead
open_rows path = board_rows rows

abbrev reported : RunnerStatus
reported = record {
  health = "ok";
  source = redact_metadata_text "kanban";
  cursor = 0;
  lag = some 7;
  compatibility = source_binding_compatibility board_binding board_db;
  outbox = source_binding_outbox_status "athb_1" board_db;
}

reports :
    source_binding_runner_status board_binding (text "board.db") open_rows board_db ≡ ok reported
unfolding board_of build_event_envelope build_kanban_envelope chars_of clean_token clip clip_output
    clip_words coalesce_enabled_for contains count_actions cursor_event_id db_path_of dedupe
    dry_run_kanban_source_binding envelope_of event_detail event_field extract_envelope_fields
    fingerprint first_occurrences first_position gate_status get_handle has_prefix insert_by_id
    is_review_required is_token_char is_type_or_value_error items_of iterate kanban_cursor
    kanban_event_type_for_kind kanban_payload kanban_subject keep_chars lag_of last_row lstrip
    mapped_material_kind max_seen missing_event_types nonnegative_int normalize_kanban_kind
    or_default or_value order_by_id read_kanban_task_events redact_metadata redact_metadata_text
    redact_secret_text replace rstrip safe_mapping sanitize sanitize_fields sanitize_items
    sanitize_untrusted_value source_binding_compatibility source_binding_event_types
    source_binding_outbox_status source_binding_runner_status source_filter_allows_event source_name
    split str_or_empty string_list string_list_from_keys string_list_of_fields strip stripped
    task_of text_length to_int to_str transform_all transform_kanban_task_event truthy
    validate_event_envelope
reports = refl

runs : is_compatible (source_binding_compatibility board_binding board_db) ≡ true
unfolding chars_of dedupe first_occurrences get_handle items_of iterate kanban_event_type_for_kind
    keep_chars lstrip missing_event_types normalize_kanban_kind replace rstrip
    source_binding_compatibility source_binding_event_types source_name split string_list
    string_list_from_keys string_list_of_fields strip stripped to_str
runs = refl

given : truthy (db_path_of (text "board.db") board_binding.source_ref) ≡ true
unfolding db_path_of or_value truthy
given = refl

lag_is_next_distance_example :
    let unread = read_kanban_task_events rows 0 1 (task_of board_binding.source_ref) in
    (7 ≡ next_distance 0 unread) × (nat_eq 7 0 ≡ is_empty unread)
lag_is_next_distance_example =
    lag_is_next_distance board_binding (text "board.db") open_rows board_db rows reported 7 refl
      runs given refl ((refl, tt), (tt, tt)) reports refl
