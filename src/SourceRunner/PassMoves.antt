-- ===== src/SourceRunner/PassMoves.antt =====
-- A whole pass of the loop, from the store of its row, either moves the cursor or ends the loop.
use hermes_plugin_async_thre.Prelude.{Bool-cases, Option-cases, String, elem, inl, inr, refl, ℕ}
use hermes_plugin_async_thre.Kanban.Transform.{
  KanbanAction, KanbanTaskEvent, transform_kanban_task_event,
}
use hermes_plugin_async_thre.Python.Ascii.{KnowsAscii}
use hermes_plugin_async_thre.Python.Except.{Except-cases}
use hermes_plugin_async_thre.Python.Runtime.{Runtime}
use hermes_plugin_async_thre.Registry.Outbox.{get_outbox, upsert_source_binding_outbox}
use hermes_plugin_async_thre.Registry.OutboxLaws.{get_outbox-upsert}
use hermes_plugin_async_thre.Registry.Rows.{SourceBinding}
use hermes_plugin_async_thre.SourceRunner.Moves.{
  HasCursor, HasRow, Moved, advancing-Moved, perform-Moved,
}
use hermes_plugin_async_thre.SourceRunner.Outcomes.{
  action_name, action_type, event_key, runner_envelope,
}
use hermes_plugin_async_thre.SourceRunner.State.{
  RunState, RunnerEnv, count_nothing, outbox_status, proceeds, terminal_safe_statuses,
}
use hermes_plugin_async_thre.SourceRunner.Steps.{runner_pass, runner_step, stored}
use hermes_plugin_async_thre.Workflow.Transition.{or_text}

module _ ⦃py : Runtime⦄ where
  module _ (env : RunnerEnv) (b : SourceBinding) (board : String) where
    module _ (c : ℕ) (event : KanbanTaskEvent) where
      stored-HasRow :
          (action : KanbanAction) (st : RunState)
          → HasRow b.binding_id event.id (stored env b board event action st).db
      unfolding HasRow
      stored-HasRow action st =
          let (row, found, origin) =
            get_outbox-upsert b.binding_id event.id event.id env.utc_now st.db
              (event_key env b board event) (action_type action) (action_name action)
              (runner_envelope env.utc_now_iso action) in
          (row, found)

      pub stored-HasCursor :
          (action : KanbanAction) (st : RunState)
          → HasCursor b.binding_id c st.db
          → HasCursor b.binding_id c (stored env b board event action st).db
      unfolding HasCursor upsert_source_binding_outbox
      stored-HasCursor action st at = elim (Option-cases (get_outbox b.binding_id event.id st.db)) [
        | inl e ↦ rw (upsert_source_binding_outbox, e) at
        | inr (row, e) ↦ rw (upsert_source_binding_outbox, e) at
      ]

      runner_pass-Moved :
          KnowsAscii py
          → (action : KanbanAction) (st : RunState) → HasCursor b.binding_id c st.db
          → Moved env b board c event (runner_pass env b board event action st)
      unfolding runner_pass
      runner_pass-Moved known action st at =
          let after = stored env b board event action st in
          let at' = stored-HasCursor action st at in
          let prior = outbox_status b.binding_id event.id after.db in
          elim (Bool-cases (elem prior terminal_safe_statuses)) [
            | inl e ↦
                rw (runner_pass, e)
                  (advancing-Moved env b board c event action proceeds prior count_nothing after at'
                    e)
            | inr e ↦
                rw (runner_pass, e)
                  (perform-Moved env b board c event known action _ after at'
                    (stored-HasRow action st))
          ]

      pub runner_step-Moved :
          KnowsAscii py
          → (st : RunState) → HasCursor b.binding_id c st.db
          → Moved env b board c event (runner_step env b board event st)
      unfolding runner_step Moved HasCursor
      runner_step-Moved known st at =
          elim (Except-cases (
            transform_kanban_task_event event board b.listener_thread_key
              (or_text b.producer_id "ath-kanban-bridge") b.event_filter b.coalesce)) [
                | inr (e, q) ↦ rw (runner_step, q) (inl (refl, at))
                | inl (action, q) ↦ rw (runner_step, q) (runner_pass-Moved known action st at)
              ]
