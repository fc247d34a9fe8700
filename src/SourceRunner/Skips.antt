-- ===== src/SourceRunner/Skips.antt =====
-- The cursor never passes an upstream event that is not settled.
use mathlib.Core.Path.{subst}
use hermes_plugin_async_thre.Prelude.{
  All, Bool-cases, List, String, [], arith, inl, inr, keep, suc, take, true, zero, ℕ, ◌<◌, ◌∷◌, ◌≡◌,
  ◌≤◌,
}
use hermes_plugin_async_thre.Kanban.Board.{
  board_of, bounded_limit, is_selected, order_by_id, read_kanban_task_events, task_of,
}
use hermes_plugin_async_thre.Kanban.Transform.{KanbanTaskEvent}
use hermes_plugin_async_thre.Python.Ascii.{KnowsAscii}
use hermes_plugin_async_thre.Python.Runtime.{Runtime}
use hermes_plugin_async_thre.Registry.Bindings.{Compatibility}
use hermes_plugin_async_thre.Registry.Rows.{Db, SourceBinding}
use hermes_plugin_async_thre.SourceRunner.Moves.{HasCursor, Moved, moved_to}
use hermes_plugin_async_thre.SourceRunner.Order.{
  All-kept, All-ordered, Ascending, Ascending-above, DistinctIds, selected-Ascending,
}
use hermes_plugin_async_thre.SourceRunner.PassMoves.{runner_step-Moved}
use hermes_plugin_async_thre.SourceRunner.Run.{run_batch}
use hermes_plugin_async_thre.SourceRunner.Settled.{run_events-settled}
use hermes_plugin_async_thre.SourceRunner.State.{
  RunState, RunnerEnv, goes_on, is_settled, run_start,
}
use hermes_plugin_async_thre.SourceRunner.Steps.{run_events, runner_step}
use hermes_plugin_async_thre.SourceRunner.Untouched.{Untouched}

-- an event at or below the position is settled
abbrev pub IsDone : String → ℕ → Db → KanbanTaskEvent → Type 0
IsDone id c db e = e.id ≤ c → is_settled id e.id db ≡ true

above-IsDone :
    (id : String) (c : ℕ) (db : Db) (es : List KanbanTaskEvent)
    → All (λ e. c < e.id) es
    → All (IsDone id c db) es
above-IsDone id c db [] h = tt
above-IsDone id c db (e ∷ es) h = ((λ le. absurd (omega (arith, h.0))), above-IsDone id c db es h.1)

moved_up : (c m : ℕ) → c < m → moved_to c m ≡ m
moved_up c m h = ground arith

module _ ⦃py : Runtime⦄ (known : KnowsAscii py) (env : RunnerEnv) (b : SourceBinding) where
  -- the state after the loop: where the cursor stands, and that all events up to it are settled
  Passed : ℕ → List KanbanTaskEvent → RunState → Type 0
  Passed c events after =
      (c' : ℕ) × HasCursor b.binding_id c' after.db
      × (c ≤ c')
      × All (IsDone b.binding_id c' after.db) events

  module _ (board : String) where
    stopped-Passed :
        (c : ℕ) (events : List KanbanTaskEvent) (st : RunState)
        → Ascending c events
        → HasCursor b.binding_id c st.db
        → Passed c events st
    unfolding Passed
    stopped-Passed c events st up at =
        (c, at, omega arith, above-IsDone b.binding_id c st.db events (Ascending-above c events up))

    -- the pass over the first event has settled it
    first-Passed :
        (c : ℕ) (event : KanbanTaskEvent) (events : List KanbanTaskEvent) (after : RunState)
        → c < event.id
        → is_settled b.binding_id event.id after.db ≡ true
        → Passed event.id events after
        → Passed c (event ∷ events) after
    unfolding Passed
    first-Passed c event events after up settled (c', at, le, done) =
        (c', at, omega (arith, up, le), ((λ _. settled), done))

    run_events-Passed :
        (k c : ℕ) (events : List KanbanTaskEvent) (st : RunState)
        → Ascending c events
        → HasCursor b.binding_id c st.db
        → Passed c events (run_events env b board (take k events) st).1
    unfolding run_events Moved Untouched
    run_events-Passed zero c events st up at = stopped-Passed c events st up at
    run_events-Passed (suc k) c [] st up at = stopped-Passed c [] st up at
    run_events-Passed (suc k) c (event ∷ events) st up at =
        let pass = runner_step env b board event st in
        elim (runner_step-Moved env b board c event known st at) [
          | inl (ended, still) ↦
              rw (run_events, ended) (stopped-Passed c (event ∷ events) pass.1 up still)
          | inr (settled, moved) ↦
              let here : HasCursor b.binding_id event.id pass.1.db =
                subst (λ n. HasCursor b.binding_id n pass.1.db) (moved_up c event.id up.0) moved in
              elim (Bool-cases (goes_on pass.0)) [
                | inr e ↦
                    rw (run_events, e)
                      (first-Passed c event events pass.1 up.0 settled
                        (stopped-Passed event.id events pass.1 up.1 here))
                | inl e ↦
                    rw (run_events, e)
                      (first-Passed c event events _ up.0
                        (rw
                          (run_events-settled env b board event.id (take k events) pass.1 settled).0
                          settled)
                        (run_events-Passed k event.id events pass.1 up.1 here))
              ]
        ]

  -- After a batch that reads from where the cursor stands, the cursor has not moved back, and every
  -- row of the board that the batch selects and that the cursor has reached is settled; so a row that
  -- is pending, or was not read, is still ahead. The ids of the board's rows must differ. A row with
  -- the status `error` counts as settled, as it does in the source.
  pub cursor_never_skips :
      (compatibility : Compatibility) (since : ℕ) (rows : List KanbanTaskEvent) (db : Db)
      → DistinctIds rows
      → HasCursor b.binding_id since db
      → let after = (run_batch env b compatibility since rows db).1 in
        (c : ℕ) × HasCursor b.binding_id c after.db
        × (since ≤ c)
        × All
            (λ (e : KanbanTaskEvent).
              is_selected since (task_of b.source_ref) e ≡ true → IsDone b.binding_id c after.db e)
            rows
  unfolding run_batch read_kanban_task_events Passed
  cursor_never_skips compatibility since rows db distinct at =
      let task = task_of b.source_ref in
      let (c, at', le, done) =
        run_events-Passed (board_of b.source_ref) (bounded_limit env.limit) since
          (order_by_id (keep (is_selected since task) rows)) (run_start db)
          (selected-Ascending since task rows distinct) at in
      (c, at', le, All-kept (is_selected since task) _ rows (All-ordered _ _ done))
