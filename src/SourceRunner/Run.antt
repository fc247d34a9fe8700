-- ===== src/SourceRunner/Run.antt =====
-- `run_source_binding_once`: the checks before the loop, the loop, and the report.
use hermes_plugin_async_thre.Prelude.{
  Bool, List, Option, String, [], false, if◌then◌else◌, keep, length, ltb, nat_eq, none, not, some,
  ℕ, ◌&&◌, ◌==◌, ◌||◌, ◌∷◌,
}
use hermes_plugin_async_thre.Kanban.Board.{
  BoardRead, board_of, board_rows, db_path_of, is_compatible, read_kanban_task_events, reason_text,
  task_of, unreadable,
}
use hermes_plugin_async_thre.Kanban.Transform.{KanbanTaskEvent}
use hermes_plugin_async_thre.Privacy.{redact_secret_text}
use hermes_plugin_async_thre.Python.Except.{Except, ok, raise, ◌>>=◌}
use hermes_plugin_async_thre.Python.Runtime.{Runtime}
use hermes_plugin_async_thre.Python.Values.{truthy}
use hermes_plugin_async_thre.Registry.Bindings.{
  Compatibility, get_source_binding, source_binding_compatibility,
}
use hermes_plugin_async_thre.Registry.Cursor.{cursor_event_id}
use hermes_plugin_async_thre.Registry.Rows.{Db, OutboxRow, SourceBinding}
use hermes_plugin_async_thre.SourceRunner.State.{
  ProcessedItem, Progress, RunCounts, RunState, RunnerEnv, crashes, goes_on, no_counts, proceeds,
  run_start, stops,
}
use hermes_plugin_async_thre.SourceRunner.Steps.{run_events}

-- `source_binding_outbox_status`: how many rows have a status, and the row of the last event
pub record OutboxReport : Type 0 where
  pub count_of : String → ℕ
  pub last : Option OutboxRow

abbrev pub later_outbox_row : OutboxRow → OutboxRow → Bool
later_outbox_row x y =
    ltb y.upstream_event_id x.upstream_event_id
    || (nat_eq y.upstream_event_id x.upstream_event_id && ltb y.id x.id)

-- `order by upstream_event_id desc, id desc limit 1`
unfoldable pub last_row : String → List OutboxRow → Option OutboxRow
last_row binding_id [] = none
last_row binding_id (row ∷ rows) =
    let rest = last_row binding_id rows in
    if row.binding_id == binding_id
    then elim rest [
      | none ↦ some row
      | some other ↦ if later_outbox_row row other then some row else some other
    ]
    else rest

unfoldable pub source_binding_outbox_status : String → Db → OutboxReport
unfolding last_row
source_binding_outbox_status binding_id db = record {
  count_of = λ status.
      length (keep (λ (o : OutboxRow). o.binding_id == binding_id && o.status == status) db.outbox);
  last = last_row binding_id db.outbox;
}

-- `_runner_report`; an absent entry is "", [] or `none`
pub record RunReport : Type 0 where
  pub is_ok : Bool
  pub health : String
  pub error : String
  pub message : String
  pub cursor : ℕ
  pub compatibility : Option Compatibility
  pub counts : RunCounts
  pub processed : List ProcessedItem
  pub outbox : Option OutboxReport
  pub upstream_rows : ℕ

module _ ⦃py : Runtime⦄ where
  -- a report on a batch that did not start
  unfoldable pub failed_report :
      SourceBinding → String → String → String → Option Compatibility → Except RunReport
  failed_report b health error message compatibility = do
    cursor ← cursor_event_id b.cursor
    ok (record {
      is_ok = false;
      health = health;
      error = if error == "" then "" else redact_secret_text error 1000 120;
      message = if message == "" then "" else redact_secret_text message 1000 300;
      cursor = cursor;
      compatibility = compatibility;
      counts = no_counts;
      processed = [];
      outbox = none;
      upstream_rows = 0;
    })

  -- the report after the loop
  unfoldable pub final_report :
      SourceBinding → Compatibility → ℕ → Progress → RunState → Except RunReport
  final_report b compatibility rows ending st =
      let fresh = get_source_binding b.binding_id b.owner_user_id st.db in
      do
        cursor ← cursor_event_id (elim fresh [ none ↦ b.cursor | some now ↦ now.cursor ])
        ok (record {
          is_ok = goes_on ending && nat_eq st.counts.error 0 && nat_eq st.counts.retryable_error 0;
          health = if goes_on ending then "ok" else "blocked";
          error = "";
          message = "";
          cursor = cursor;
          compatibility = some compatibility;
          counts = st.counts;
          processed = st.processed;
          outbox = some (source_binding_outbox_status b.binding_id st.db);
          upstream_rows = rows;
        })

  module _ (env : RunnerEnv) (b : SourceBinding) where
    -- the loop over a board's rows
    unfoldable pub run_batch :
        Compatibility → ℕ → List KanbanTaskEvent → Db → Except RunReport × RunState
    run_batch compatibility cursor rows db =
        let events = read_kanban_task_events rows cursor env.limit (task_of b.source_ref) in
        let run = run_events env b (board_of b.source_ref) events (run_start db) in
        (
          elim run.0 [
            | crashes e ↦ raise e
            | proceeds ↦ final_report b compatibility (length events) proceeds run.1
            | stops ↦ final_report b compatibility (length events) stops run.1
          ],
          run.1,
        )

    -- what follows on reading the board
    unfoldable pub after_reading : ℕ → BoardRead → Db → Except RunReport × RunState
    after_reading cursor (unreadable message) db = (
      failed_report b "read_failed" "kanban_read_failed" message
          (some (source_binding_compatibility b db)),
      run_start db,
    )
    after_reading cursor (board_rows rows) db =
        run_batch (source_binding_compatibility b db) cursor rows db

    -- `run_source_binding_once`
    unfoldable pub run_source_binding_once : Db → Except RunReport × RunState
    run_source_binding_once db =
        let compatibility = source_binding_compatibility b db in
        let path = db_path_of env.board_db_path b.source_ref in
        if not (b.source == "kanban")
        then (failed_report b "invalid_binding" "unsupported_source" "" none, run_start db)
        else if not (is_compatible compatibility)
        then (
          failed_report b "fail_closed" (reason_text compatibility) "" (some compatibility),
          run_start db,
        )
        else if not (truthy path)
        then (
          failed_report b "fail_closed" "kanban_db_path_required" "" (some compatibility),
          run_start db,
        )
        else elim (cursor_event_id b.cursor) [
          | raise e ↦ (raise e, run_start db)
          | ok cursor ↦ after_reading cursor (env.open_board path) db
        ]
