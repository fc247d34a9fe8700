-- ===== src/Tests/Runner.antt =====
-- The theorems on the source runner, for a board with two tasks.
use hermes_plugin_async_thre.Prelude.{
  All, List, [], arith, false, map, refl, some, true, ℕ, ◌∷◌, ◌≡◌, ◌≤◌,
}
use hermes_plugin_async_thre.Emitter.{
  EmitResult, build_event_envelope, envelope_of, validate_event_envelope,
}
use hermes_plugin_async_thre.Kanban.Board.{
  board_of, board_rows, db_path_of, insert_by_id, is_selected, order_by_id, read_kanban_task_events,
  task_of,
}
use hermes_plugin_async_thre.Kanban.Transform.{
  KanbanTaskEvent, build_kanban_envelope, clip_words, coalesce_enabled_for, event_detail,
  is_review_required, kanban_payload, kanban_subject, mapped_material_kind, safe_mapping,
  transform_kanban_task_event, would_emit,
}
use hermes_plugin_async_thre.Privacy.{
  clip_output, fingerprint, redact_metadata, redact_metadata_text, redact_secret_text,
  safe_event_id, sanitize, sanitize_fields, sanitize_items, sanitize_untrusted_value,
}
use hermes_plugin_async_thre.Python.Ascii.{KnowsAscii}
use hermes_plugin_async_thre.Python.Except.{ok}
use hermes_plugin_async_thre.Python.Json.{end, text}
use hermes_plugin_async_thre.Python.Text.{
  clean_token, clip, contains, has_prefix, is_token_char, keep_chars, lstrip, replace, rstrip,
  split, strip, text_length,
}
use hermes_plugin_async_thre.Python.Values.{
  chars_of, is_type_or_value_error, items_of, iterate, or_default, or_value, str_or_empty, stripped,
  to_int, to_str, truthy,
}
use hermes_plugin_async_thre.Registry.Bindings.{
  compatible, get_source_binding, missing_event_types, redacted_mapping,
  source_binding_compatibility,
}
use hermes_plugin_async_thre.Registry.Cursor.{
  advance_source_binding_cursor, advanced_cursor, cursor_event_id, cursor_position, first_position,
  position_from, write_cursor,
}
use hermes_plugin_async_thre.Registry.Handles.{get_handle}
use hermes_plugin_async_thre.Registry.Outbox.{
  get_outbox, mark_source_binding_outbox, marked, new_outbox, upsert_source_binding_outbox,
}
use hermes_plugin_async_thre.Registry.Rows.{Db, OutboxRow}
use hermes_plugin_async_thre.Security.{event_field, extract_envelope_fields}
use hermes_plugin_async_thre.SourceFilters.{
  dedupe, first_occurrences, kanban_event_type_for_kind, normalize_kanban_kind,
  source_binding_event_types, source_filter_allows_event, source_name, string_list,
  string_list_from_keys, string_list_of_fields,
}
use hermes_plugin_async_thre.SourceRunner.Accepting.{Completes, IsAvailable, accepted_events_settle}
use hermes_plugin_async_thre.SourceRunner.Diagnostics.{
  emit_failure_diagnostic, fragment_chars, lstrip_edges, rstrip_edges, safe_diagnostic_fragment,
}
use hermes_plugin_async_thre.SourceRunner.Moves.{HasCursor}
use hermes_plugin_async_thre.SourceRunner.Outcomes.{advancing, finishing, holding, processed_item}
use hermes_plugin_async_thre.SourceRunner.Run.{
  after_reading, failed_report, final_report, last_row, run_batch, run_source_binding_once,
  source_binding_outbox_status,
}
use hermes_plugin_async_thre.SourceRunner.Settled.{settled_event_is_not_sent}
use hermes_plugin_async_thre.SourceRunner.Skips.{IsDone, cursor_never_skips}
use hermes_plugin_async_thre.SourceRunner.State.{
  Emission, RunnerEnv, count_coalesced, count_duplicate, count_emitted, count_error, count_nothing,
  count_retryable_error, count_suppressed, is_settled, outbox_status, run_start,
}
use hermes_plugin_async_thre.SourceRunner.Steps.{
  attempt, listener_unavailable, perform, run_events, runner_pass, runner_step, send_out,
  settle_emission, suppress,
}
use hermes_plugin_async_thre.SourceRunner.Untouched.{sent_for}
use hermes_plugin_async_thre.Tests.AsciiRuntime.{ascii_runtime}
use hermes_plugin_async_thre.Tests.Bridge.{
  board_binding, board_db, board_handle, review-is_emitted, review_envelope, review_event,
}
use hermes_plugin_async_thre.Workflow.Gates.{gate_status}

ascii-letters : KnowsAscii ascii_runtime
ascii-letters = record {
  letter-is_alnum = λ c h. ground (arith, h);
  letter-is_space = λ c h. ground (arith, h);
}

abbrev accepted_result : EmitResult
accepted_result = record {
  success = true;
  retryable = false;
  duplicate = false;
  http_status = some 202;
  receiver_status = "accepted";
  body = "";
  error = "";
}

abbrev second_event : KanbanTaskEvent
second_event = record review_event { id = 9; task_id = "T2" }

abbrev board : List KanbanTaskEvent
board = second_event ∷ review_event ∷ []

abbrev runner_env : RunnerEnv
runner_env = record {
  event_url = "http://localhost/events";
  board_db_path = text "board.db";
  limit = 100;
  open_board = λ path. board_rows board;
  emit = λ sent_before url envelope secret. ok accepted_result;
  utc_now = "t1";
  utc_now_iso = "2026-01-01T00:00:00Z";
}

-- the first task was sent before
abbrev sent_row : OutboxRow
sent_row = record {
  id = 1;
  binding_id = "athb_1";
  upstream_event_id = 7;
  ath_event_id = "default:T1:7";
  event_type = "kanban.task.ready_for_review";
  action = "would_emit";
  status = "succeeded";
  attempts = 0;
  http_status = some 202;
  receiver_status = "accepted";
  last_error = "";
  envelope = end;
  created_at = "t0";
  updated_at = "t0";
}

abbrev half_sent_db : Db
half_sent_db = record board_db { outbox = sent_row ∷ []; next_outbox_id = 2 }

first_task-settled : is_settled "athb_1" 7 half_sent_db ≡ true
unfolding outbox_status get_outbox
first_task-settled = refl

-- the run sends the second task only
second_task-sent :
    map
      (λ (e : Emission). e.upstream_event_id)
      (run_source_binding_once runner_env board_binding half_sent_db).1.emissions
    ≡ 9 ∷ []
unfolding advance_source_binding_cursor advanced_cursor advancing after_reading attempt board_of
    build_event_envelope build_kanban_envelope chars_of clean_token clip clip_output clip_words
    coalesce_enabled_for contains count_coalesced count_duplicate count_emitted count_error
    count_nothing count_retryable_error count_suppressed cursor_event_id cursor_position db_path_of
    dedupe send_out emit_failure_diagnostic envelope_of event_detail event_field
    extract_envelope_fields failed_report final_report fingerprint finishing first_occurrences
    first_position fragment_chars gate_status get_handle get_outbox get_source_binding has_prefix
    holding insert_by_id is_review_required is_token_char is_type_or_value_error items_of iterate
    kanban_event_type_for_kind kanban_payload kanban_subject keep_chars last_row
    listener_unavailable lstrip lstrip_edges mapped_material_kind mark_source_binding_outbox marked
    missing_event_types new_outbox normalize_kanban_kind or_default or_value order_by_id
    outbox_status perform position_from processed_item read_kanban_task_events redact_metadata
    redact_metadata_text redact_secret_text redacted_mapping replace rstrip rstrip_edges run_batch
    run_events run_source_binding_once runner_pass runner_step safe_diagnostic_fragment
    safe_event_id safe_mapping sanitize sanitize_fields sanitize_items sanitize_untrusted_value
    settle_emission source_binding_compatibility source_binding_event_types
    source_binding_outbox_status source_filter_allows_event source_name split str_or_empty
    string_list string_list_from_keys string_list_of_fields strip stripped suppress task_of
    text_length to_int to_str transform_kanban_task_event truthy upsert_source_binding_outbox
    validate_event_envelope write_cursor
second_task-sent = refl

settled_event_is_not_sent_example :
    let after = (run_source_binding_once runner_env board_binding half_sent_db).1 in
    (sent_for 7 after.emissions ≡ 0) × (is_settled "athb_1" 7 after.db ≡ true)
settled_event_is_not_sent_example =
    settled_event_is_not_sent runner_env board_binding 7 half_sent_db first_task-settled

board-HasCursor : HasCursor "athb_1" 0 board_db
unfolding HasCursor cursor_position is_type_or_value_error or_default position_from to_int
board-HasCursor = (board_binding, refl, refl)

cursor_never_skips_example :
    let after = (run_batch runner_env board_binding compatible 0 board board_db).1 in
    (c : ℕ) × HasCursor "athb_1" c after.db
    × (0 ≤ c)
    × All
        (λ (e : KanbanTaskEvent).
          is_selected 0 (task_of board_binding.source_ref) e ≡ true → IsDone "athb_1" c after.db e)
        board
cursor_never_skips_example =
    cursor_never_skips ascii-letters runner_env board_binding compatible 0 board board_db
      ((refl, tt), (tt, tt)) board-HasCursor

listener-IsAvailable : IsAvailable ascii-letters runner_env board_binding "default" board_db
unfolding get_handle
listener-IsAvailable = (board_handle, refl, refl)

accepted_events_settle_example :
    Completes ascii-letters runner_env board_binding "default"
      (review_event ∷ [])
      (run_events runner_env board_binding "default" (review_event ∷ []) (run_start board_db))
accepted_events_settle_example =
    accepted_events_settle ascii-letters runner_env board_binding "default" (review_event ∷ []) 0
      (run_start board_db) (λ sent_before envelope secret. (accepted_result, refl, refl))
      listener-IsAvailable
      ((would_emit "kanban.task.ready_for_review" review_envelope, review-is_emitted), tt)
      board-HasCursor
