-- ===== src/SourceRunner/Accepting.antt =====
-- A batch whose emissions are all accepted goes through to its end.
use hermes_plugin_async_thre.Prelude.{
  All, Bool, Bool-cases, List, Option, String, [], ap, elem, false, inl, inr, refl, some, true, ℕ,
  ◌∷◌, ◌≡◌,
}
use hermes_plugin_async_thre.Emitter.{EmitResult}
use hermes_plugin_async_thre.Kanban.Transform.{
  KanbanAction, KanbanTaskEvent, coalesce_routine, event_type_not_allowed, not_material,
  routine_event, transform_kanban_task_event, would_emit,
}
use hermes_plugin_async_thre.Python.Ascii.{KnowsAscii}
use hermes_plugin_async_thre.Python.Except.{ok}
use hermes_plugin_async_thre.Python.Json.{Fields}
use hermes_plugin_async_thre.Python.Runtime.{Runtime}
use hermes_plugin_async_thre.Registry.CursorLaws.{advance-IsMonotone}
use hermes_plugin_async_thre.Registry.Handles.{get_handle}
use hermes_plugin_async_thre.Registry.Rows.{Db, Handle, SourceBinding}
use hermes_plugin_async_thre.SourceRunner.Moves.{HasCursor, Moved, marked-HasCursor, moved_to}
use hermes_plugin_async_thre.SourceRunner.Outcomes.{advancing, finishing, logged, marking}
use hermes_plugin_async_thre.SourceRunner.PassMoves.{runner_step-Moved, stored-HasCursor}
use hermes_plugin_async_thre.SourceRunner.Settled.{run_events-settled, runner_step-listeners}
use hermes_plugin_async_thre.SourceRunner.State.{
  Emission, Progress, RunCounts, RunState, RunnerEnv, count_nothing, goes_on, is_settled,
  outbox_status, proceeds, terminal_safe_statuses,
}
use hermes_plugin_async_thre.SourceRunner.Steps.{
  attempt, is_unavailable, perform, run_events, runner_pass, runner_step, send_out, settle_emission,
  stored, suppress,
}
use hermes_plugin_async_thre.SourceRunner.Untouched.{Untouched, stored-handles}
use hermes_plugin_async_thre.Workflow.Transition.{or_text}

contradicts : (p : Progress) → p ≡ proceeds → goes_on p ≡ false → ⊥
contradicts p on ended = let bad : goes_on proceeds ≡ false = rw on at ended in cc

module _ ⦃py : Runtime⦄ (known : KnowsAscii py) (env : RunnerEnv) (b : SourceBinding)
    (board : String) where
  -- the receiver accepts whatever is sent
  abbrev pub Accepts : Type 0
  Accepts =
      (sent_before : List Emission) (envelope : Fields) (secret : String)
      → (r : EmitResult) × (env.emit sent_before env.event_url envelope secret ≡ ok r)
        × (r.success ≡ true)

  -- the binding's listener is there and fits
  abbrev pub IsAvailable : Db → Type 0
  IsAvailable db =
      (l : Handle) × (get_handle b.listener_thread_key db ≡ some l)
      × (is_unavailable env b board l ≡ false)

  -- the transform of the event does not raise
  abbrev pub IsReadable : KanbanTaskEvent → Type 0
  IsReadable event =
      (action : KanbanAction) × (transform_kanban_task_event event board b.listener_thread_key
          (or_text b.producer_id "ath-kanban-bridge") b.event_filter b.coalesce
        ≡ ok action)

  module _ (c : ℕ) (event : KanbanTaskEvent) where
    advancing-ending :
        (ending : Progress) (rest : RunState → RunState) (st : RunState)
        → HasCursor b.binding_id c st.db
        → (advancing env b board event ending rest st).0 ≡ ending
    unfolding HasCursor advancing
    advancing-ending ending rest st (row, found, at) =
        let (after, row', moves, found', at') =
          advance-IsMonotone b.binding_id env.utc_now event.id c st.db row found at in
        rw (advancing, moves) refl

    finishing-ending :
        (action : KanbanAction) (ending : Progress) (status error : String) (http : Option ℕ)
        (answer : String) (increments : Bool) (tally : RunCounts → RunCounts) (st : RunState)
        → HasCursor b.binding_id c st.db
        → (finishing env b board event action ending status error http answer increments tally st).0
          ≡ ending
    unfolding finishing
    finishing-ending action ending status error http answer increments tally st at =
        advancing-ending ending (logged env b board event action status tally)
          (marking env b board event status error http answer increments st)
          (marked-HasCursor env b board c event status error http answer increments st at)

    settle_emission-proceeds :
        (action : KanbanAction) (r : EmitResult) (st : RunState)
        → r.success ≡ true
        → HasCursor b.binding_id c st.db
        → (settle_emission env b board event action r st).0 ≡ proceeds
    unfolding settle_emission
    settle_emission-proceeds action r st s at = elim (Bool-cases r.duplicate) [
      | inl d ↦ simp (settle_emission, s, d) (finishing-ending action proceeds _ _ _ _ _ _ st at)
      | inr d ↦ simp (settle_emission, s, d) (finishing-ending action proceeds _ _ _ _ _ _ st at)
    ]

    module _ (accepts : Accepts) (st : RunState) (at : HasCursor b.binding_id c st.db) where
      send_out-proceeds :
          (action : KanbanAction) (envelope : Fields)
          → IsAvailable st.db
          → (send_out env b board event action envelope st).0 ≡ proceeds
      unfolding send_out attempt HasCursor
      send_out-proceeds action envelope (l, is_there, fits) =
          let (r, answers, good) = accepts st.emissions envelope l.secret in
          rw (send_out, is_there)
            (rw fits (rw (attempt, answers) (settle_emission-proceeds action r _ good at)))

      suppress-proceeds :
          (action : KanbanAction) → (suppress env b board event action st).0 ≡ proceeds
      unfolding suppress
      suppress-proceeds action = finishing-ending action proceeds _ _ _ _ _ _ st at

      perform-proceeds :
          (action : KanbanAction) (envelope : Fields)
          → IsAvailable st.db
          → (perform env b board event action envelope st).0 ≡ proceeds
      unfolding perform
      perform-proceeds (would_emit t d) envelope l = send_out-proceeds (would_emit t d) envelope l
      perform-proceeds coalesce_routine envelope l =
          finishing-ending coalesce_routine proceeds _ _ _ _ _ _ st at
      perform-proceeds routine_event envelope l = suppress-proceeds routine_event
      perform-proceeds not_material envelope l = suppress-proceeds not_material
      perform-proceeds (event_type_not_allowed t) envelope l =
          suppress-proceeds (event_type_not_allowed t)

    same_listeners : (db db' : Db) → db'.handles ≡ db.handles → IsAvailable db → IsAvailable db'
    unfolding get_handle
    same_listeners db db' same (l, is_there, fits) = (l, rw same is_there, fits)

    runner_step-proceeds :
        Accepts
        → (st : RunState) → HasCursor b.binding_id c st.db
        → IsAvailable st.db
        → IsReadable event
        → (runner_step env b board event st).0 ≡ proceeds
    unfolding runner_step runner_pass
    runner_step-proceeds accepts st at l (action, q) =
        let after = stored env b board event action st in
        let at' = stored-HasCursor env b board c event action st at in
        let l' = same_listeners st.db after.db (stored-handles env b board event action st) l in
        let prior = outbox_status b.binding_id event.id after.db in
        rw (runner_step, q)
          (elim (Bool-cases (elem prior terminal_safe_statuses)) [
            | inl e ↦
                rw (runner_pass, e)
                  (advancing-ending proceeds (logged env b board event action prior count_nothing)
                    after at')
            | inr e ↦ rw (runner_pass, e) (perform-proceeds accepts after at' action _ l')
          ])

  -- the loop ended by itself, and each of the events is settled
  unfoldable pub Completes : List KanbanTaskEvent → Progress × RunState → Type 0
  Completes events run =
      (run.0 ≡ proceeds)
      × All (λ (e : KanbanTaskEvent). is_settled b.binding_id e.id run.1.db ≡ true) events

  run_events-on :
      (event : KanbanTaskEvent) (events : List KanbanTaskEvent) (st : RunState)
      → (runner_step env b board event st).0 ≡ proceeds
      → run_events env b board (event ∷ events) st
        ≡ run_events env b board events (runner_step env b board event st).1
  unfolding run_events
  run_events-on event events st on =
      let e : goes_on (runner_step env b board event st).0 ≡ true = ap goes_on on in
      rw (run_events, e) refl

  nothing-Completes : (st : RunState) → Completes [] (run_events env b board [] st)
  unfolding Completes run_events
  nothing-Completes st = (refl, tt)

  first-Completes :
      (event : KanbanTaskEvent) (events : List KanbanTaskEvent) (st : RunState)
      → is_settled b.binding_id event.id st.db ≡ true
      → Completes events (run_events env b board events st)
      → Completes (event ∷ events) (run_events env b board events st)
  unfolding Completes Untouched
  first-Completes event events st settled (ended, all) =
      (ended, (rw (run_events-settled env b board event.id events st settled).0 settled, all))

  -- A loop ends by itself and settles every one of its events, if the receiver accepts all that is
  -- sent, the binding's listener is there and fits, no event's transform raises, and the binding's
  -- cursor can be read.
  pub accepted_events_settle :
      (events : List KanbanTaskEvent) (c : ℕ) (st : RunState)
      → Accepts
      → IsAvailable st.db
      → All IsReadable events
      → HasCursor b.binding_id c st.db
      → Completes events (run_events env b board events st)
  unfolding Moved
  accepted_events_settle [] c st accepts l readable at = nothing-Completes st
  accepted_events_settle (event ∷ events) c st accepts l readable at =
      let pass = runner_step env b board event st in
      let on = runner_step-proceeds c event accepts st at l readable.0 in
      let l' =
        same_listeners c event st.db pass.1.db (runner_step-listeners env b board event st) l in
      elim (runner_step-Moved env b board c event known st at) [
        | inl (ended, still) ↦ absurd (contradicts pass.0 on ended)
        | inr (settled, moved) ↦ rw (run_events-on event events st on) (
            first-Completes event events pass.1 settled (
              accepted_events_settle events (moved_to c event.id) pass.1 accepts l' readable.1
                moved))
      ]
