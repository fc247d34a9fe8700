-- ===== src/SourceRunner/Passes.antt =====
-- A pass over an event leaves the rows of other events alone.
use hermes_plugin_async_thre.Prelude.{
  Bool, Bool-cases, Option, Option-cases, String, [], elem, inl, inr, refl, ℕ, ◌++◌, ◌∷◌,
}
use hermes_plugin_async_thre.Emitter.{EmitResult}
use hermes_plugin_async_thre.Kanban.Transform.{
  KanbanAction, KanbanTaskEvent, coalesce_routine, event_type_not_allowed, not_material,
  routine_event, would_emit,
}
use hermes_plugin_async_thre.Python.Except.{Except-cases}
use hermes_plugin_async_thre.Python.Json.{Fields}
use hermes_plugin_async_thre.Python.Runtime.{Runtime}
use hermes_plugin_async_thre.Registry.Handles.{get_handle}
use hermes_plugin_async_thre.Registry.OutboxLaws.{Apart}
use hermes_plugin_async_thre.Registry.Rows.{Handle, SourceBinding}
use hermes_plugin_async_thre.SourceRunner.Outcomes.{finishing, holding, logged, marking}
use hermes_plugin_async_thre.SourceRunner.State.{
  Progress, RunCounts, RunState, RunnerEnv, count_nothing, outbox_status, proceeds, stops,
  terminal_safe_statuses,
}
use hermes_plugin_async_thre.SourceRunner.Steps.{
  attempt, emission_of, is_unavailable, listener_unavailable, perform, runner_pass, send_out,
  settle_emission, stored, suppress,
}
use hermes_plugin_async_thre.SourceRunner.Untouched.{
  Untouched, Untouched-trans, advancing-Untouched, length-keep-append, logged-Untouched,
  marking-Untouched, stored-Untouched,
}

module _ ⦃py : Runtime⦄ (env : RunnerEnv) (b : SourceBinding) (board : String) where
  module _ (n : ℕ) (event : KanbanTaskEvent) (h : Apart n event.id) where
    finishing-Untouched :
        (action : KanbanAction) (ending : Progress) (status error : String) (http : Option ℕ)
        (answer : String) (increments : Bool) (tally : RunCounts → RunCounts) (st : RunState)
        → Untouched b n st
            (finishing env b board event action ending status error http answer increments tally
              st).1
    unfolding finishing
    finishing-Untouched action ending status error http answer increments tally st =
        let after = marking env b board event status error http answer increments st in
        Untouched-trans env b board n st after _
          (marking-Untouched env b board n event status error http answer increments st h)
          (advancing-Untouched env b board n event ending
            (logged env b board event action status tally) after
            (logged-Untouched env b board n event action status tally))

    holding-Untouched :
        (action : KanbanAction) (status shown error : String) (http : Option ℕ) (answer : String)
        (increments : Bool) (tally : RunCounts → RunCounts) (st : RunState)
        → Untouched b n st
            (holding env b board event action status shown error http answer increments tally st).1
    unfolding holding
    holding-Untouched action status shown error http answer increments tally st =
        let after = marking env b board event status error http answer increments st in
        Untouched-trans env b board n st after _
          (marking-Untouched env b board n event status error http answer increments st h)
          (logged-Untouched env b board n event action shown tally after)

    settle_emission-Untouched :
        (action : KanbanAction) (r : EmitResult) (st : RunState)
        → Untouched b n st (settle_emission env b board event action r st).1
    unfolding settle_emission
    settle_emission-Untouched action r st = elim (Bool-cases r.success) [
      | inl s ↦ elim (Bool-cases r.duplicate) [
        | inl d ↦ simp (settle_emission, s, d) (finishing-Untouched action proceeds _ _ _ _ _ _ st)
        | inr d ↦ simp (settle_emission, s, d) (finishing-Untouched action proceeds _ _ _ _ _ _ st)
      ]
      | inr s ↦ elim (Bool-cases r.retryable) [
        | inl t ↦ simp (settle_emission, s, t) (holding-Untouched action _ _ _ _ _ _ _ st)
        | inr t ↦ simp (settle_emission, s, t) (finishing-Untouched action stops _ _ _ _ _ _ st)
      ]
    ]

    sent-Untouched :
        (envelope : Fields) (l : Handle) (st : RunState)
        → Untouched b n st (record st {
          emissions = st.emissions ++ emission_of env b board event envelope l ∷ [];
        })
    unfolding Untouched
    sent-Untouched envelope l st =
        (refl, length-keep-append n st.emissions (emission_of env b board event envelope l) h, refl)

    attempt-Untouched :
        (action : KanbanAction) (envelope : Fields) (l : Handle) (st : RunState)
        → Untouched b n st (attempt env b board event action envelope l st).1
    unfolding attempt
    attempt-Untouched action envelope l st =
        elim (Except-cases (env.emit st.emissions env.event_url envelope l.secret)) [
          | inr (e, q) ↦ rw (attempt, q) (sent-Untouched envelope l st)
          | inl (r, q) ↦
              rw (attempt, q)
                (Untouched-trans env b board n st _ _ (sent-Untouched envelope l st)
                  (settle_emission-Untouched action r _))
        ]

    listener_unavailable-Untouched :
        (action : KanbanAction) (st : RunState)
        → Untouched b n st (listener_unavailable env b board event action st).1
    unfolding listener_unavailable
    listener_unavailable-Untouched action st = holding-Untouched action _ _ _ _ _ _ _ st

    send_out-Untouched :
        (action : KanbanAction) (envelope : Fields) (st : RunState)
        → Untouched b n st (send_out env b board event action envelope st).1
    unfolding send_out
    send_out-Untouched action envelope st =
        elim (Option-cases (get_handle b.listener_thread_key st.db)) [
          | inl e ↦ rw (send_out, e) (listener_unavailable-Untouched action st)
          | inr (l, e) ↦ elim (Bool-cases (is_unavailable env b board l)) [
            | inl u ↦ rw (send_out, e) (rw u (listener_unavailable-Untouched action st))
            | inr u ↦ rw (send_out, e) (rw u (attempt-Untouched action envelope l st))
          ]
        ]

    suppress-Untouched :
        (action : KanbanAction) (st : RunState)
        → Untouched b n st (suppress env b board event action st).1
    unfolding suppress
    suppress-Untouched action st = finishing-Untouched action _ _ _ _ _ _ _ st

    perform-Untouched :
        (action : KanbanAction) (envelope : Fields) (st : RunState)
        → Untouched b n st (perform env b board event action envelope st).1
    unfolding perform
    perform-Untouched (would_emit t d) envelope st = send_out-Untouched (would_emit t d) envelope st
    perform-Untouched coalesce_routine envelope st = finishing-Untouched _ _ _ _ _ _ _ _ st
    perform-Untouched routine_event envelope st = suppress-Untouched routine_event st
    perform-Untouched not_material envelope st = suppress-Untouched not_material st
    perform-Untouched (event_type_not_allowed t) envelope st =
        suppress-Untouched (event_type_not_allowed t) st

  pub runner_pass-Untouched :
      (n : ℕ) (event : KanbanTaskEvent) (action : KanbanAction) (st : RunState)
      → Apart n event.id
      → Untouched b n st (runner_pass env b board event action st).1
  unfolding runner_pass
  runner_pass-Untouched n event action st h =
      let after = stored env b board event action st in
      let prior = outbox_status b.binding_id event.id after.db in
      Untouched-trans env b board n st after _ (stored-Untouched env b board n event action st h)
        (elim (Bool-cases (elem prior terminal_safe_statuses)) [
          | inl e ↦
              rw (runner_pass, e)
                (advancing-Untouched env b board n event proceeds _ after
                  (logged-Untouched env b board n event action prior count_nothing))
          | inr e ↦ rw (runner_pass, e) (perform-Untouched n event h action _ after)
        ])
