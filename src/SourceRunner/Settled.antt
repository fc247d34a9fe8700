-- ===== src/SourceRunner/Settled.antt =====
-- A settled row is never emitted again, over one pass, the loop, and a whole run.
use mathlib.Core.Path.{subst}
use hermes_plugin_async_thre.Prelude.{
  Bool-cases, List, String, [], ap, arith, elem, false, inl, inr, nat_eq, none, refl, suc, sym,
  true, ℕ, ◌==◌, ◌∙◌, ◌∷◌, ◌≡◌,
}
use hermes_plugin_async_thre.Kanban.Board.{
  BoardRead, board_of, board_rows, db_path_of, is_compatible, read_kanban_task_events, task_of,
  unreadable,
}
use hermes_plugin_async_thre.Kanban.Transform.{
  KanbanAction, KanbanTaskEvent, transform_kanban_task_event,
}
use hermes_plugin_async_thre.Python.Except.{Except-cases}
use hermes_plugin_async_thre.Python.Runtime.{Runtime}
use hermes_plugin_async_thre.Python.Values.{truthy}
use hermes_plugin_async_thre.Registry.Bindings.{source_binding_compatibility}
use hermes_plugin_async_thre.Registry.Cursor.{cursor_event_id}
use hermes_plugin_async_thre.Registry.Outbox.{get_outbox}
use hermes_plugin_async_thre.Registry.OutboxLaws.{get_outbox-upsert}
use hermes_plugin_async_thre.Registry.Rows.{Db, SourceBinding}
use hermes_plugin_async_thre.SourceRunner.Outcomes.{
  action_name, action_type, advancing, event_key, logged, runner_envelope,
}
use hermes_plugin_async_thre.SourceRunner.Passes.{runner_pass-Untouched}
use hermes_plugin_async_thre.SourceRunner.Run.{after_reading, run_batch, run_source_binding_once}
use hermes_plugin_async_thre.SourceRunner.State.{
  RunState, RunnerEnv, count_nothing, goes_on, is_settled, outbox_status, proceeds, row_status,
  run_start, terminal_safe_statuses,
}
use hermes_plugin_async_thre.SourceRunner.Steps.{run_events, runner_pass, runner_step, stored}
use hermes_plugin_async_thre.SourceRunner.Untouched.{
  Untouched, Untouched-refl, Untouched-trans, advancing-Untouched, logged-Untouched, sent_for,
  stored-handles,
}
use hermes_plugin_async_thre.Workflow.Transition.{or_text}

module _ ⦃py : Runtime⦄ (env : RunnerEnv) (b : SourceBinding) (board : String) where
  -- a status that is settled is that of a row, which the insert leaves as it is
  stored-settled :
      (event : KanbanTaskEvent) (action : KanbanAction) (st : RunState)
      → is_settled b.binding_id event.id st.db ≡ true
      → outbox_status b.binding_id event.id (stored env b board event action st).db
        ≡ outbox_status b.binding_id event.id st.db
  unfolding outbox_status
  stored-settled event action st settled =
      let (row, found, origin) =
        get_outbox-upsert b.binding_id event.id event.id env.utc_now st.db
          (event_key env b board event) (action_type action) (action_name action)
          (runner_envelope env.utc_now_iso action) in
      elim origin [
        | inl old ↦ ap row_status (found ∙ sym old)
        | inr (missing, new) ↦ absurd (absent missing)
      ]
    where
      absent : get_outbox b.binding_id event.id st.db ≡ none → ⊥
      absent missing = let bad : false ≡ true = rw missing at settled in cc

  -- A pass on an event whose row is settled moves the cursor at most.
  runner_pass-settled :
      (event : KanbanTaskEvent) (action : KanbanAction) (st : RunState)
      → is_settled b.binding_id event.id st.db ≡ true
      → Untouched b event.id st (runner_pass env b board event action st).1
  unfolding runner_pass Untouched
  runner_pass-settled event action st settled =
      let after = stored env b board event action st in
      let same = stored-settled event action st settled in
      let prior = outbox_status b.binding_id event.id after.db in
      let done : elem prior terminal_safe_statuses ≡ true = rw same settled in
      rw (runner_pass, done)
        (Untouched-trans env b board event.id st after
          (advancing env b board event proceeds
            (logged env b board event action prior count_nothing) after).1
          (same, refl, stored-handles env b board event action st)
          (advancing-Untouched env b board event.id event proceeds
            (logged env b board event action prior count_nothing) after
            (logged-Untouched env b board event.id event action prior count_nothing)))

  runner_step-settled :
      (n : ℕ) (event : KanbanTaskEvent) (st : RunState)
      → is_settled b.binding_id n st.db ≡ true
      → Untouched b n st (runner_step env b board event st).1
  unfolding runner_step
  runner_step-settled n event st settled =
      elim (Except-cases (
        transform_kanban_task_event event board b.listener_thread_key
          (or_text b.producer_id "ath-kanban-bridge") b.event_filter b.coalesce)) [
            | inr (e, q) ↦ rw (runner_step, q) (Untouched-refl env b board n st)
            | inl (action, q) ↦ elim (Bool-cases (nat_eq n event.id)) [
              | inr other ↦
                  rw (runner_step, q) (runner_pass-Untouched env b board n event action st other)
              | inl same ↦
                  let e : event.id ≡ n = ground arith in
                  rw (runner_step, q)
                    (subst (λ m. Untouched b m st (runner_pass env b board event action st).1) e
                      (runner_pass-settled event action st
                        (subst (λ m. is_settled b.binding_id m st.db ≡ true) (sym e) settled)))
            ]
          ]

  -- A pass changes no listener.
  pub runner_step-listeners :
      (event : KanbanTaskEvent) (st : RunState)
      → (runner_step env b board event st).1.db.handles ≡ st.db.handles
  unfolding runner_step Untouched
  runner_step-listeners event st =
      elim (Except-cases (
        transform_kanban_task_event event board b.listener_thread_key
          (or_text b.producer_id "ath-kanban-bridge") b.event_filter b.coalesce)) [
            | inr (e, q) ↦ rw (runner_step, q) refl
            | inl (action, q) ↦
                rw (runner_step, q)
                  (runner_pass-Untouched env b board (suc event.id) event action st
                    (ground arith)).2
          ]

  pub run_events-settled :
      (n : ℕ) (events : List KanbanTaskEvent) (st : RunState)
      → is_settled b.binding_id n st.db ≡ true
      → Untouched b n st (run_events env b board events st).1
  unfolding run_events Untouched
  run_events-settled n [] st settled = Untouched-refl env b board n st
  run_events-settled n (event ∷ events) st settled =
      let pass = runner_step env b board event st in
      let one = runner_step-settled n event st settled in
      elim (Bool-cases (goes_on pass.0)) [
        | inl e ↦
            rw (run_events, e)
              (Untouched-trans env b board n st pass.1 (run_events env b board events pass.1).1 one
                (run_events-settled n events pass.1 (rw one.0 settled)))
        | inr e ↦ rw (run_events, e) one
      ]

module _ ⦃py : Runtime⦄ (env : RunnerEnv) (b : SourceBinding) where
  after_reading-settled :
      (n : ℕ) (db : Db) (cursor : ℕ) (board : BoardRead)
      → is_settled b.binding_id n db ≡ true
      → Untouched b n (run_start db) (after_reading env b cursor board db).1
  unfolding after_reading run_batch
  after_reading-settled n db cursor (unreadable message) settled =
      Untouched-refl env b "" n (run_start db)
  after_reading-settled n db cursor (board_rows rows) settled =
      run_events-settled env b (board_of b.source_ref) n
        (read_kanban_task_events rows cursor env.limit (task_of b.source_ref)) (run_start db)
        settled

  run_once-settled :
      (n : ℕ) (db : Db)
      → is_settled b.binding_id n db ≡ true
      → Untouched b n (run_start db) (run_source_binding_once env b db).1
  unfolding run_source_binding_once
  run_once-settled n db settled =
      let idle = Untouched-refl env b "" n (run_start db) in
      elim (Bool-cases (b.source == "kanban")) [
        | inr s ↦ rw (run_source_binding_once, s) idle
        | inl s ↦ elim (Bool-cases (is_compatible (source_binding_compatibility b db))) [
          | inr c ↦ rw (run_source_binding_once, s) (rw c idle)
          | inl c ↦ elim (Bool-cases (truthy (db_path_of env.board_db_path b.source_ref))) [
            | inr p ↦ rw (run_source_binding_once, s) (rw c (rw p idle))
            | inl p ↦ elim (Except-cases (cursor_event_id b.cursor)) [
              | inr (e, q) ↦ rw (run_source_binding_once, s) (rw c (rw p (rw q idle)))
              | inl (cursor, q) ↦
                  rw (run_source_binding_once, s)
                    (rw c
                      (rw p (rw q (after_reading-settled n db cursor (env.open_board _) settled))))
            ]
          ]
        ]
      ]

-- An event whose outbox row is settled is not sent by any further run, and its row stays settled:
-- whatever the emitter answers, whatever the board holds, and also where the run ends by an
-- exception. A row with the status `error` counts as settled, as it does in the source.
pub settled_event_is_not_sent :
    ⦃py : Runtime⦄ (env : RunnerEnv) (b : SourceBinding) (n : ℕ) (db : Db)
    → is_settled b.binding_id n db ≡ true
    → let after = (run_source_binding_once env b db).1 in
      (sent_for n after.emissions ≡ 0) × (is_settled b.binding_id n after.db ≡ true)
unfolding Untouched
settled_event_is_not_sent env b n db settled =
    let same = run_once-settled env b n db settled in (same.1, rw same.0 settled)
