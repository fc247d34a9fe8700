-- ===== src/SourceRunner/Status.antt =====
-- `source_binding_runner_status`: what the runner says of a binding without running it.
use hermes_plugin_async_thre.Prelude.{
  Option, String, if◌then◌else◌, nat_eq, none, some, ℕ, ◌&&◌, ◌-◌, ◌==◌,
}
use hermes_plugin_async_thre.Kanban.Board.{
  BoardRead, DryRunReport, db_path_of, dry_run_kanban_source_binding, invalid_binding,
  is_compatible, previewed,
}
use hermes_plugin_async_thre.Privacy.{redact_metadata_text}
use hermes_plugin_async_thre.Python.Except.{Except, ok, raise, ◌>>=◌}
use hermes_plugin_async_thre.Python.Json.{Json}
use hermes_plugin_async_thre.Python.Runtime.{Runtime}
use hermes_plugin_async_thre.Python.Values.{truthy}
use hermes_plugin_async_thre.Registry.Bindings.{Compatibility, source_binding_compatibility}
use hermes_plugin_async_thre.Registry.Cursor.{cursor_event_id}
use hermes_plugin_async_thre.Registry.Rows.{Db, SourceBinding}
use hermes_plugin_async_thre.SourceRunner.Run.{OutboxReport, source_binding_outbox_status}

pub record RunnerStatus : Type 0 where
  pub health : String
  pub source : String
  pub cursor : ℕ
  pub lag : Option ℕ
  pub compatibility : Compatibility
  pub outbox : OutboxReport

-- `would_advance - cursor`, from the report of a dry run; an invalid report has no cursor, and an
-- exception leaves the lag unknown
unfoldable pub lag_of : ℕ → Except DryRunReport → Option ℕ
lag_of cursor (raise e) = none
lag_of cursor (ok (invalid_binding reason message)) = some 0
lag_of cursor (ok (previewed board from_id seen counts actions)) =
    some ((if nat_eq seen 0 then cursor else seen) - cursor)

module _ ⦃py : Runtime⦄ where
  unfoldable pub source_binding_runner_status :
      SourceBinding → Json → (Json → BoardRead) → Db → Except RunnerStatus
  source_binding_runner_status b configured open_board db =
      let path = db_path_of configured b.source_ref in
      do
        cursor ← cursor_event_id b.cursor
        ok (record {
          health =
              if is_compatible (source_binding_compatibility b db) then "ok" else "fail_closed";
          source = redact_metadata_text b.source;
          cursor = cursor;
          lag =
              if b.source == "kanban" && truthy path
              then lag_of cursor
                  (dry_run_kanban_source_binding b db path open_board (some cursor) 1)
              else none;
          compatibility = source_binding_compatibility b db;
          outbox = source_binding_outbox_status b.binding_id db;
        })
