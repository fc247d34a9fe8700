-- ===== src/Registry/Workflows.antt =====
-- The table of workflow states.
use hermes_plugin_async_thre.Prelude.{
  Bool, Option, String, [], any, first, if◌then◌else◌, none, some, update_where, ◌&&◌, ◌++◌, ◌==◌,
  ◌∷◌,
}
use hermes_plugin_async_thre.Python.Json.{Fields}
use hermes_plugin_async_thre.Python.Runtime.{Runtime}
use hermes_plugin_async_thre.Registry.Rows.{Db, Handle, WorkflowRow}
use hermes_plugin_async_thre.Security.{EnvelopeFields}
use hermes_plugin_async_thre.Workflow.Event.{normalize_workflow_event}
use hermes_plugin_async_thre.Workflow.Transition.{WorkflowState, apply_workflow_transition}

abbrev pub is_workflow_row : String → String → WorkflowRow → Bool
is_workflow_row thread_key workflow_id row =
    row.thread_key == thread_key && row.state.workflow_id == workflow_id

-- `get_workflow_state`
unfoldable pub get_workflow_state : String → String → Db → Option WorkflowState
get_workflow_state thread_key workflow_id db =
    elim (first (is_workflow_row thread_key workflow_id) db.workflow_state) [
      | none ↦ none
      | some row ↦ some row.state
    ]

-- the insert that updates on conflict
unfoldable pub put_workflow_state : String → WorkflowState → Db → Db
put_workflow_state thread_key state db = record db {
  workflow_state =
      if any (is_workflow_row thread_key state.workflow_id) db.workflow_state
      then update_where (is_workflow_row thread_key state.workflow_id)
          (λ row. record row { state = state }) db.workflow_state
      else db.workflow_state ++ (record { thread_key = thread_key; state = state }) ∷ [];
}

module _ ⦃py : Runtime⦄ where
  -- `update_workflow_state_from_event`, in one transaction
  unfoldable pub update_workflow_state_from_event :
      Handle → Fields → EnvelopeFields → String → Db → Option WorkflowState × Db
  unfolding normalize_workflow_event get_workflow_state apply_workflow_transition put_workflow_state
  update_workflow_state_from_event handle d fields now db =
      elim (normalize_workflow_event d fields) [
        | none ↦ (none, db)
        | some event ↦
            let previous = get_workflow_state handle.thread_key event.workflow_id db in
            let state = apply_workflow_transition previous event handle.workflow_policy now in
            let db' = put_workflow_state handle.thread_key state db in
            (get_workflow_state handle.thread_key state.workflow_id db', db')
      ]
