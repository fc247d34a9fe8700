-- ===== src/SourceRunner/Steps.antt =====
-- One pass of the loop of `run_source_binding_once`.
use hermes_plugin_async_thre.Prelude.{
  Bool, List, String, [], elem, false, if◌then◌else◌, none, not, some, true, ◌++◌, ◌==◌, ◌||◌, ◌∷◌,
}
use hermes_plugin_async_thre.Emitter.{EmitResult}
use hermes_plugin_async_thre.Kanban.Transform.{
  KanbanAction, KanbanTaskEvent, coalesce_routine, event_type_not_allowed, not_material,
  routine_event, transform_kanban_task_event, would_emit,
}
use hermes_plugin_async_thre.Python.Except.{ok, raise}
use hermes_plugin_async_thre.Python.Json.{Fields}
use hermes_plugin_async_thre.Python.Runtime.{Runtime}
use hermes_plugin_async_thre.Registry.Handles.{get_handle}
use hermes_plugin_async_thre.Registry.Outbox.{upsert_source_binding_outbox}
use hermes_plugin_async_thre.Registry.Rows.{Handle, SourceBinding}
use hermes_plugin_async_thre.SourceRunner.Diagnostics.{emit_failure_diagnostic}
use hermes_plugin_async_thre.SourceRunner.Outcomes.{
  action_name, action_type, advancing, event_key, finishing, holding, logged, runner_envelope,
}
use hermes_plugin_async_thre.SourceRunner.State.{
  Emission, Progress, RunState, RunnerEnv, count_coalesced, count_duplicate, count_emitted,
  count_error, count_nothing, count_retryable_error, count_suppressed, crashes, goes_on,
  outbox_status, proceeds, stops, terminal_safe_statuses, with_run_db,
}
use hermes_plugin_async_thre.Workflow.Transition.{or_text}

module _ ⦃py : Runtime⦄ where
  module _ (env : RunnerEnv) (b : SourceBinding) (board : String) where
    -- what follows on the emitter's answer
    unfoldable pub settle_emission :
        KanbanTaskEvent → KanbanAction → EmitResult → RunState → Progress × RunState
    settle_emission event action r st =
        if r.success
        then (if r.duplicate
            then finishing env b board event action proceeds "duplicate" "" r.http_status
                r.receiver_status false count_duplicate st
            else finishing env b board event action proceeds "succeeded" "" r.http_status
                r.receiver_status false count_emitted st)
        else if r.retryable
        then holding env b board event action "pending" "retryable_error"
            (emit_failure_diagnostic r) r.http_status r.receiver_status true count_retryable_error
            st
        else finishing env b board event action stops "error" (emit_failure_diagnostic r)
            r.http_status r.receiver_status true count_error st

    -- the listener is gone, disabled, or another producer's
    abbrev pub is_unavailable : Handle → Bool
    is_unavailable h = not h.enabled || not (h.producer_id == or_text b.producer_id h.producer_id)

    unfoldable pub listener_unavailable :
        KanbanTaskEvent → KanbanAction → RunState → Progress × RunState
    listener_unavailable event action st =
        holding env b board event action "error" "error" "listener_unavailable_or_incompatible" none
          "" false count_error st

    abbrev pub emission_of : KanbanTaskEvent → Fields → Handle → Emission
    emission_of event envelope h = record {
      upstream_event_id = event.id;
      envelope = envelope;
      secret = h.secret;
    }

    unfoldable pub attempt :
        KanbanTaskEvent → KanbanAction → Fields → Handle → RunState → Progress × RunState
    attempt event action envelope h st =
        let after = record st { emissions = st.emissions ++ emission_of event envelope h ∷ [] } in
        elim (env.emit st.emissions env.event_url envelope h.secret) [
          | raise e ↦ (crashes e, after)
          | ok r ↦ settle_emission event action r after
        ]

    unfoldable pub send_out :
        KanbanTaskEvent → KanbanAction → Fields → RunState → Progress × RunState
    send_out event action envelope st = elim (get_handle b.listener_thread_key st.db) [
      | none ↦ listener_unavailable event action st
      | some h ↦
          if is_unavailable h
          then listener_unavailable event action st
          else attempt event action envelope h st
    ]

    unfoldable pub suppress : KanbanTaskEvent → KanbanAction → RunState → Progress × RunState
    suppress event action st =
        finishing env b board event action proceeds "suppressed" "" none "" false count_suppressed
          st

    -- the branches on the action's name
    unfoldable pub perform :
        KanbanTaskEvent → KanbanAction → Fields → RunState → Progress × RunState
    perform event (would_emit t d) envelope st = send_out event (would_emit t d) envelope st
    perform event coalesce_routine envelope st =
        finishing env b board event coalesce_routine proceeds "coalesced" "" none "" false
          count_coalesced st
    perform event routine_event envelope st = suppress event routine_event st
    perform event not_material envelope st = suppress event not_material st
    perform event (event_type_not_allowed t) envelope st =
        suppress event (event_type_not_allowed t) st

    -- `registry.upsert_source_binding_outbox(...)`
    abbrev pub stored : KanbanTaskEvent → KanbanAction → RunState → RunState
    stored event action st =
        with_run_db
          (upsert_source_binding_outbox b.binding_id event.id (event_key env b board event)
            (action_type action) (action_name action) (runner_envelope env.utc_now_iso action)
            env.utc_now st.db)
          st

    -- the pass after the transform
    unfoldable pub runner_pass : KanbanTaskEvent → KanbanAction → RunState → Progress × RunState
    runner_pass event action st =
        let after = stored event action st in
        let prior = outbox_status b.binding_id event.id after.db in
        if elem prior terminal_safe_statuses
        then advancing env b board event proceeds
            (logged env b board event action prior count_nothing) after
        else perform event action (runner_envelope env.utc_now_iso action) after

    unfoldable pub runner_step : KanbanTaskEvent → RunState → Progress × RunState
    runner_step event st =
        elim (transform_kanban_task_event event board b.listener_thread_key
          (or_text b.producer_id "ath-kanban-bridge") b.event_filter b.coalesce) [
            | raise e ↦ (crashes e, st)
            | ok action ↦ runner_pass event action st
          ]

    -- the loop over the events
    unfoldable pub run_events : List KanbanTaskEvent → RunState → Progress × RunState
    run_events [] st = (proceeds, st)
    run_events (event ∷ events) st =
        let pass = runner_step event st in
        let others = run_events events pass.1 in if goes_on pass.0 then others else pass
