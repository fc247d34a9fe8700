-- ===== src/Kanban/Board.antt =====
-- Reading a Kanban board, and the dry run of a binding over it.
use hermes_plugin_async_thre.Prelude.{
  Bool, List, Option, String, [], clamp_zero, false, if◌then◌else◌, keep, ltb, max, min, none, not,
  pos, some, take, true, ℕ, ◌&&◌, ◌+◌, ◌==◌, ◌||◌, ◌∷◌,
}
use hermes_plugin_async_thre.Kanban.Transform.{
  KanbanAction, KanbanTaskEvent, coalesce_routine, event_type_not_allowed, not_material,
  routine_event, transform_kanban_task_event, would_emit,
}
use hermes_plugin_async_thre.Privacy.{redact_metadata}
use hermes_plugin_async_thre.Python.Except.{Except, ok, ◌>>=◌}
use hermes_plugin_async_thre.Python.Json.{Fields, Json, find, get, text}
use hermes_plugin_async_thre.Python.Runtime.{Runtime}
use hermes_plugin_async_thre.Python.Text.{clean_token, strip}
use hermes_plugin_async_thre.Python.Values.{
  or_default, or_value, str_or_empty, to_int, to_str, truthy,
}
use hermes_plugin_async_thre.Registry.Bindings.{
  Compatibility, binding_not_active, compatible, disallowed_event_types, listener_disabled,
  listener_missing, listener_not_owned, producer_mismatch, source_binding_compatibility,
}
use hermes_plugin_async_thre.Registry.Cursor.{cursor_keys}
use hermes_plugin_async_thre.Registry.Rows.{Db, SourceBinding, active, paused, retired}
use hermes_plugin_async_thre.Workflow.Transition.{or_text}

-- what opening a board's database gives: its rows, or the message of a failure that the readers
-- catch. The database belongs to another program.
pub data BoardRead : Type 0 where
  board_rows : List KanbanTaskEvent → BoardRead
  unreadable : String → BoardRead

-- `order by e.id asc`
unfoldable pub insert_by_id : KanbanTaskEvent → List KanbanTaskEvent → List KanbanTaskEvent
insert_by_id e [] = e ∷ []
insert_by_id e (x ∷ xs) =
    let rest = insert_by_id e xs in if ltb x.id e.id then x ∷ rest else e ∷ x ∷ xs

unfoldable pub order_by_id : List KanbanTaskEvent → List KanbanTaskEvent
unfolding insert_by_id
order_by_id [] = []
order_by_id (x ∷ xs) = insert_by_id x (order_by_id xs)

-- `where e.id > ?` and, where a task is given, `e.task_id = ?`
abbrev pub is_selected : ℕ → String → KanbanTaskEvent → Bool
is_selected since task e = ltb since e.id && (task == "" || e.task_id == task)

-- `max(1, min(limit, 500))`
abbrev pub bounded_limit : ℕ → ℕ
bounded_limit n = max 1 (min n 500)

-- `read_kanban_task_events`, of an open board
unfoldable pub read_kanban_task_events :
    List KanbanTaskEvent → ℕ → ℕ → String → List KanbanTaskEvent
unfolding order_by_id
read_kanban_task_events rows since limit task =
    take (bounded_limit limit) (order_by_id (keep (is_selected since task) rows))

-- `_count_actions`
pub record ActionCounts : Type 0 where
  pub would_emits : ℕ
  pub suppressions : ℕ
  pub coalesces : ℕ

abbrev pub add_action : KanbanAction → ActionCounts → ActionCounts
add_action coalesce_routine c = record c { coalesces = c.coalesces + 1 }
add_action routine_event c = record c { suppressions = c.suppressions + 1 }
add_action not_material c = record c { suppressions = c.suppressions + 1 }
add_action (event_type_not_allowed t) c = record c { suppressions = c.suppressions + 1 }
add_action (would_emit t envelope) c = record c { would_emits = c.would_emits + 1 }

unfoldable pub count_actions : List KanbanAction → ActionCounts
count_actions [] = record { would_emits = 0; suppressions = 0; coalesces = 0 }
count_actions (a ∷ as') = add_action a (count_actions as')

-- `max([event.id for event in events], default=cursor)`
unfoldable pub max_seen : ℕ → List KanbanTaskEvent → ℕ
max_seen cursor [] = cursor
max_seen cursor (e ∷ []) = e.id
max_seen cursor (e ∷ x ∷ xs) =
    let rest = max_seen cursor (x ∷ xs) in if ltb e.id rest then rest else e.id

-- the report of a dry run
pub data DryRunReport : Type 0 where
  invalid_binding : String → String → DryRunReport
  previewed : String → ℕ → ℕ → ActionCounts → List KanbanAction → DryRunReport

-- why a report says that a binding may not run
abbrev pub reason_text : Compatibility → String
reason_text compatible = "ok"
reason_text (binding_not_active active) = "binding_active"
reason_text (binding_not_active paused) = "binding_paused"
reason_text (binding_not_active retired) = "binding_retired"
reason_text listener_missing = "listener_missing"
reason_text listener_not_owned = "listener_not_owned"
reason_text listener_disabled = "listener_disabled"
reason_text producer_mismatch = "producer_mismatch"
reason_text (disallowed_event_types missing) = "disallowed_event_types"

abbrev pub is_compatible : Compatibility → Bool
is_compatible compatible = true
is_compatible _ = false

module _ ⦃py : Runtime⦄ where
  -- `str(source_ref.get("board") or source_ref.get("boardRef") or "default")`
  unfoldable pub board_of : Fields → String
  unfolding or_value to_str
  board_of ref =
      to_str (or_value (or_value (get "board" ref) (get "boardRef" ref)) (text "default"))

  -- the database's path, that of the configuration first
  unfoldable pub db_path_of : Json → Fields → Json
  unfolding or_value
  db_path_of configured ref =
      or_value (or_value (or_value configured (get "dbPath" ref)) (get "boardDbPath" ref))
        (get "path" ref)

  -- the task that a binding is restricted to, or ""
  unfoldable pub task_of : Fields → String
  unfolding or_value strip str_or_empty
  task_of ref = strip (str_or_empty (or_value (get "task" ref) (get "taskId" ref)))

  -- `_nonnegative_int(value, default=0)`
  unfoldable pub nonnegative_int : Json → Except ℕ
  unfolding to_int or_default
  nonnegative_int value = do parsed ← or_default (to_int value) (pos 0); ok (clamp_zero parsed)

  -- `_cursor_event_id(cursor, default=0)` of kanban.py: the first key that is there
  unfoldable pub kanban_cursor : Fields → List String → Except ℕ
  unfolding nonnegative_int
  kanban_cursor cursor [] = ok 0
  kanban_cursor cursor (k ∷ ks) =
      let others = kanban_cursor cursor ks in
      elim (find k cursor) [ none ↦ others | some v ↦ nonnegative_int v ]

  -- `[transform_kanban_task_event(...) for event in events]`
  unfoldable pub transform_all :
      SourceBinding → String → List KanbanTaskEvent → Except (List KanbanAction)
  transform_all b board [] = ok []
  transform_all b board (e ∷ es) = do
    action ←
        transform_kanban_task_event e board b.listener_thread_key
          (or_text b.producer_id "ath-kanban-bridge") b.event_filter b.coalesce
    others ← transform_all b board es
    ok (action ∷ others)

  -- `dry_run_kanban_source_binding`, with a registry; `since` is `since_event_id` where it is given
  unfoldable pub dry_run_kanban_source_binding :
      SourceBinding → Db → Json → (Json → BoardRead) → Option ℕ → ℕ → Except DryRunReport
  unfolding board_of db_path_of task_of kanban_cursor transform_all
  dry_run_kanban_source_binding b db configured open_board since limit =
      let compatibility = source_binding_compatibility b db in
      let path = db_path_of configured b.source_ref in
      let board = clean_token (board_of b.source_ref) "default" 100 in
      if not (b.source == "kanban")
      then ok (invalid_binding "unsupported_source" "")
      else if not (is_compatible compatibility)
      then ok (invalid_binding (reason_text compatibility) "")
      else if not (truthy path)
      then ok (invalid_binding "kanban_db_path_required" "")
      else do
        cursor ← elim since [ none ↦ kanban_cursor b.cursor cursor_keys | some n ↦ ok n ]
        elim (open_board path) [
          | unreadable message ↦
              ok (invalid_binding "kanban_read_failed" (redact_metadata 300 message))
          | board_rows rows ↦ do
            let events = read_kanban_task_events rows cursor limit (task_of b.source_ref)
            actions ← transform_all b board events
            ok (previewed board cursor (max_seen cursor events) (count_actions actions) actions)
        ]
