-- ===== src/SourceRunner/Outcomes.antt =====
-- How a pass of the loop of `run_source_binding_once` ends: with its row settled and the cursor moved,
-- or with its row marked and the cursor where it was.
use hermes_plugin_async_thre.Prelude.{Bool, Option, String, [], ℕ, ◌++◌, ◌∷◌}
use hermes_plugin_async_thre.Kanban.Transform.{
  KanbanAction, KanbanTaskEvent, coalesce_routine, event_type_not_allowed, not_material,
  routine_event, upstream_id, would_emit,
}
use hermes_plugin_async_thre.Privacy.{redact_metadata_text}
use hermes_plugin_async_thre.Python.Except.{ok, raise}
use hermes_plugin_async_thre.Python.Json.{Fields, end, field, put, text}
use hermes_plugin_async_thre.Python.Runtime.{Runtime}
use hermes_plugin_async_thre.Python.Text.{clean_token}
use hermes_plugin_async_thre.Registry.Cursor.{advance_source_binding_cursor}
use hermes_plugin_async_thre.Registry.Outbox.{mark_source_binding_outbox}
use hermes_plugin_async_thre.Registry.Rows.{SourceBinding}
use hermes_plugin_async_thre.SourceRunner.State.{
  ProcessedItem, Progress, RunCounts, RunState, RunnerEnv, crashes, stops, with_run_db,
}

-- the keys of an action that the report shows
abbrev pub action_type : KanbanAction → String
action_type coalesce_routine = "kanban.task.comment_digest"
action_type routine_event = ""
action_type not_material = ""
action_type (event_type_not_allowed t) = t
action_type (would_emit t envelope) = t

abbrev pub action_name : KanbanAction → String
action_name coalesce_routine = "would_coalesce"
action_name routine_event = "suppressed"
action_name not_material = "suppressed"
action_name (event_type_not_allowed t) = "suppressed"
action_name (would_emit t envelope) = "would_emit"

-- `_runner_envelope`: the time of emission is written anew
abbrev pub fresh_envelope : String → Fields → Fields
fresh_envelope now end = end
fresh_envelope now (field k v d) = put "occurredAt" (text now) (field k v d)

abbrev pub runner_envelope : String → KanbanAction → Fields
runner_envelope now (would_emit t envelope) = fresh_envelope now envelope
runner_envelope now _ = end

module _ ⦃py : Runtime⦄ where
  module _ (env : RunnerEnv) (b : SourceBinding) (board : String) where
    -- `action["eventId"]`
    abbrev pub event_key : KanbanTaskEvent → String
    event_key event = upstream_id (clean_token board "default" 100) event

    unfoldable pub processed_item : KanbanTaskEvent → KanbanAction → String → ProcessedItem
    processed_item event action status = record {
      upstream_event_id = event.id;
      event_id = redact_metadata_text (event_key event);
      event_type = redact_metadata_text (action_type action);
      action = action_name action;
      status = status;
    }

    -- `processed.append(...)`, after the counters were changed
    abbrev pub logged :
        KanbanTaskEvent → KanbanAction → String → (RunCounts → RunCounts) → RunState → RunState
    logged event action status tally st = record st {
      counts = tally st.counts;
      processed = st.processed ++ processed_item event action status ∷ [];
    }

    -- `registry.mark_source_binding_outbox(...)`
    abbrev pub marking :
        KanbanTaskEvent → String → String → Option ℕ → String → Bool → RunState → RunState
    marking event status error http_status receiver_status increments st =
        with_run_db
          (mark_source_binding_outbox b.binding_id event.id status error http_status receiver_status
            increments env.utc_now st.db).1
          st

    -- `registry.advance_source_binding_cursor(...)`, then the rest of the pass
    unfoldable pub advancing :
        KanbanTaskEvent → Progress → (RunState → RunState) → RunState → Progress × RunState
    advancing event ending rest st =
        elim (advance_source_binding_cursor b.binding_id event.id env.utc_now st.db) [
          | raise e ↦ (crashes e, st)
          | ok (moved, db) ↦ (ending, rest (with_run_db db st))
        ]

    -- the event's row reaches a status of which it never leaves, and the cursor moves past it
    unfoldable pub finishing :
        KanbanTaskEvent
        → KanbanAction
        → Progress
        → String
        → String
        → Option ℕ
        → String
        → Bool
        → (RunCounts → RunCounts)
        → RunState
        → Progress × RunState
    finishing event action ending status error http_status receiver_status increments tally st =
        advancing event ending (logged event action status tally)
          (marking event status error http_status receiver_status increments st)

    -- the event's row is marked, and the loop stops with the cursor where it is
    unfoldable pub holding :
        KanbanTaskEvent
        → KanbanAction
        → String
        → String
        → String
        → Option ℕ
        → String
        → Bool
        → (RunCounts → RunCounts)
        → RunState
        → Progress × RunState
    holding event action status shown error http_status receiver_status increments tally st = (
      stops,
      logged event action shown tally
          (marking event status error http_status receiver_status increments st),
    )
