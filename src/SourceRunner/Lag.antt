-- ===== src/SourceRunner/Lag.antt =====
-- What the lag of a binding's status counts.
use mathlib.Core.Path.{subst}
use hermes_plugin_async_thre.Prelude.{
  List, String, [], ap, arith, if◌then◌else◌, is_empty, keep, nat_eq, none, refl, some, sym, take,
  true, ℕ, ◌&&◌, ◌-◌, ◌==◌, ◌∙◌, ◌∷◌, ◌≡◌,
}
use hermes_plugin_async_thre.Kanban.Board.{
  BoardRead, board_of, board_rows, count_actions, db_path_of, dry_run_kanban_source_binding,
  is_compatible, is_selected, max_seen, order_by_id, previewed, read_kanban_task_events, task_of,
  transform_all,
}
use hermes_plugin_async_thre.Kanban.Transform.{KanbanAction, KanbanTaskEvent}
use hermes_plugin_async_thre.Python.Except.{Except, bind-eq-ok, ok, ok-injective, raise, ◌>>=◌}
use hermes_plugin_async_thre.Python.Json.{Fields, Json, get}
use hermes_plugin_async_thre.Python.Runtime.{Runtime}
use hermes_plugin_async_thre.Python.Text.{clean_token}
use hermes_plugin_async_thre.Python.Values.{or_value, truthy}
use hermes_plugin_async_thre.Registry.Bindings.{source_binding_compatibility}
use hermes_plugin_async_thre.Registry.Cursor.{cursor_event_id}
use hermes_plugin_async_thre.Registry.Rows.{Db, SourceBinding}
use hermes_plugin_async_thre.SourceRunner.Order.{Ascending, DistinctIds, selected-Ascending}
use hermes_plugin_async_thre.SourceRunner.Status.{
  RunnerStatus, lag_of, source_binding_runner_status,
}

-- how far the first of the events is from a position; 0 where there is none
unfoldable pub next_distance : ℕ → List KanbanTaskEvent → ℕ
next_distance cursor [] = 0
next_distance cursor (e ∷ es) = e.id - cursor

module _ ⦃py : Runtime⦄ where
  or_value-truthy : (a b : Json) → truthy a ≡ true → or_value a b ≡ a
  unfolding or_value
  or_value-truthy a b h = rw h refl

  db_path_of-truthy : (path : Json) (ref : Fields) → truthy path ≡ true → db_path_of path ref ≡ path
  unfolding db_path_of
  db_path_of-truthy path ref h =
      rw
        (
          or_value-truthy path (get "dbPath" ref) h,
          or_value-truthy path (get "boardDbPath" ref) h,
          or_value-truthy path (get "path" ref) h,
        )
        refl

  -- the dry run of a binding that may run, over a board that can be read
  dry_run-readable :
      (b : SourceBinding) (db : Db) (path : Json) (open_board : Json → BoardRead) (cursor limit : ℕ)
      (rows : List KanbanTaskEvent)
      → (b.source == "kanban") ≡ true
      → is_compatible (source_binding_compatibility b db) ≡ true
      → truthy path ≡ true
      → open_board path ≡ board_rows rows
      → let board = clean_token (board_of b.source_ref) "default" 100 in
        let events = read_kanban_task_events rows cursor limit (task_of b.source_ref) in
        dry_run_kanban_source_binding b db path open_board (some cursor) limit ≡ (
          transform_all b board events >>= λ actions.
          ok (previewed board cursor (max_seen cursor events) (count_actions actions) actions))
  unfolding dry_run_kanban_source_binding
  dry_run-readable b db path open_board cursor limit rows kanban fine given readable =
      rw (kanban, fine, db_path_of-truthy path b.source_ref given, given, readable) refl

  lag_of-preview :
      (cursor n : ℕ) (board : String) (events : List KanbanTaskEvent)
      (made : Except (List KanbanAction))
      → Ascending cursor events
      → lag_of cursor (
          made >>= λ actions. ok (
            previewed board cursor
              (max_seen cursor (take 1 events))
              (count_actions actions)
              actions))
        ≡ some n
      → (n ≡ next_distance cursor (take 1 events)) × (nat_eq n 0 ≡ is_empty (take 1 events))
  unfolding lag_of next_distance max_seen
  lag_of-preview cursor n board [] (raise e) rising h = cc
  lag_of-preview cursor n board (x ∷ xs) (raise e) rising h = cc
  lag_of-preview cursor n board [] (ok actions) rising h =
      let e : ((if nat_eq cursor 0 then cursor else cursor) - cursor) ≡ n = cc in
      (ground (arith, e), ground (arith, e))
  lag_of-preview cursor n board (x ∷ xs) (ok actions) rising h =
      let e : ((if nat_eq x.id 0 then cursor else x.id) - cursor) ≡ n = cc in
      (ground (arith, e, rising.0), ground (arith, e, rising.0))

  -- For a binding that may run on a board that can be read, a lag that the status reports is the
  -- distance from the cursor to the next event that is not read yet, however many follow it, and is
  -- zero exactly where there is none.
  pub lag_is_next_distance :
      (b : SourceBinding) (configured : Json) (open_board : Json → BoardRead) (db : Db)
      (rows : List KanbanTaskEvent) (status : RunnerStatus) (n : ℕ)
      → (b.source == "kanban") ≡ true
      → is_compatible (source_binding_compatibility b db) ≡ true
      → truthy (db_path_of configured b.source_ref) ≡ true
      → open_board (db_path_of configured b.source_ref) ≡ board_rows rows
      → DistinctIds rows
      → source_binding_runner_status b configured open_board db ≡ ok status
      → status.lag ≡ some n
      → let unread = read_kanban_task_events rows status.cursor 1 (task_of b.source_ref) in
        (n ≡ next_distance status.cursor unread) × (nat_eq n 0 ≡ is_empty unread)
  unfolding source_binding_runner_status read_kanban_task_events
  lag_is_next_distance b configured open_board db rows status n kanban fine given readable distinct
        answered lagging =
      let path = db_path_of configured b.source_ref in
      let (cursor, e, h1) = bind-eq-ok (cursor_event_id b.cursor) _ answered in
      let task = task_of b.source_ref in
      let board = clean_token (board_of b.source_ref) "default" 100 in
      let events = order_by_id (keep (is_selected cursor task) rows) in
      let same_cursor : cursor ≡ status.cursor =
        ap (λ (s : RunnerStatus). s.cursor) (ok-injective h1) in
      let shown : (if b.source == "kanban" && truthy path
            then lag_of cursor (dry_run_kanban_source_binding b db path open_board (some cursor) 1)
            else none)
          ≡ some n =
        ap (λ (s : RunnerStatus). s.lag) (ok-injective h1) ∙ lagging in
      let lag : lag_of cursor (dry_run_kanban_source_binding b db path open_board (some cursor) 1)
          ≡ some n =
        rw (kanban, given) at shown in
      let run = dry_run-readable b db path open_board cursor 1 rows kanban fine given readable in
      subst
        (λ c.
          let unread = read_kanban_task_events rows c 1 task in
          (n ≡ next_distance c unread) × (nat_eq n 0 ≡ is_empty unread))
        same_cursor
        (lag_of-preview cursor n board events
          (transform_all b board (read_kanban_task_events rows cursor 1 task))
          (selected-Ascending cursor task rows distinct) (sym (ap (lag_of cursor) run) ∙ lag))
