-- ===== src/SourceRunner/Moves.antt =====
-- Where the cursor of a binding stands after a pass: it passes an event only when the event's row is
-- settled.
use hermes_plugin_async_thre.Prelude.{
  Bool, Bool-cases, Option, Option-cases, String, elem, false, first, if◌then◌else◌, inl, inr, leb,
  pos, refl, some, true, ℕ, ◌==◌, ◌≡◌, ◌⊎◌,
}
use hermes_plugin_async_thre.Emitter.{EmitResult}
use hermes_plugin_async_thre.Kanban.Transform.{
  KanbanAction, KanbanTaskEvent, coalesce_routine, event_type_not_allowed, not_material,
  routine_event, would_emit,
}
use hermes_plugin_async_thre.Python.Ascii.{KnowsAscii, clean_token-word, is_word}
use hermes_plugin_async_thre.Python.Except.{Except-cases, ok}
use hermes_plugin_async_thre.Python.Json.{Fields}
use hermes_plugin_async_thre.Python.Runtime.{Runtime}
use hermes_plugin_async_thre.Python.Text.{clean_token, clip}
use hermes_plugin_async_thre.Registry.Cursor.{cursor_position, is_binding}
use hermes_plugin_async_thre.Registry.CursorLaws.{advance-IsMonotone}
use hermes_plugin_async_thre.Registry.Handles.{get_handle}
use hermes_plugin_async_thre.Registry.Outbox.{get_outbox, mark_source_binding_outbox, marked}
use hermes_plugin_async_thre.Registry.OutboxLaws.{get_outbox-mark}
use hermes_plugin_async_thre.Registry.Rows.{Db, Handle, OutboxRow, SourceBinding}
use hermes_plugin_async_thre.SourceRunner.Outcomes.{advancing, finishing, holding, logged, marking}
use hermes_plugin_async_thre.SourceRunner.State.{
  Progress, RunCounts, RunState, RunnerEnv, goes_on, is_settled, outbox_status, proceeds, stops,
  terminal_safe_statuses,
}
use hermes_plugin_async_thre.SourceRunner.Steps.{
  attempt, is_unavailable, listener_unavailable, perform, send_out, settle_emission, suppress,
}
use hermes_plugin_async_thre.SourceRunner.Untouched.{advance-keeps, get_outbox-rows, status-same}

-- the larger of the cursor and the event
abbrev pub moved_to : ℕ → ℕ → ℕ
moved_to c m = if leb m c then c else m

module _ ⦃py : Runtime⦄ where
  -- the binding of that id has its cursor at `c`
  unfoldable pub HasCursor : String → ℕ → Db → Type 0
  HasCursor id c db =
      (row : SourceBinding) × (first (is_binding id) db.source_bindings ≡ some row)
      × (cursor_position row.cursor ≡ ok (pos c))

  -- the event has a row in the outbox
  unfoldable pub HasRow : String → ℕ → Db → Type 0
  HasRow id m db = (row : OutboxRow) × (get_outbox id m db ≡ some row)

  -- a status that is written as it is given, and is settled
  abbrev IsFinal : String → Type 0
  IsFinal status =
      (clean_token status "pending" 100 ≡ status) × (elem status terminal_safe_statuses ≡ true)

  word-IsFinal :
      KnowsAscii py
      → (s : String) → is_word s ≡ true
      → (s == "") ≡ false
      → clip 100 s ≡ s
      → elem s terminal_safe_statuses ≡ true
      → IsFinal s
  word-IsFinal known s word some_char fits final =
      (clean_token-word known s "pending" 100 word some_char fits, final)

  module _ (env : RunnerEnv) (b : SourceBinding) (board : String) where
    -- Either the loop ends with the cursor where it was, or the event is settled and the cursor has
    -- moved to it.
    unfoldable pub Moved : ℕ → KanbanTaskEvent → Progress × RunState → Type 0
    Moved c event x =
        ((goes_on x.0 ≡ false) × HasCursor b.binding_id c x.1.db)
        ⊎ ((is_settled b.binding_id event.id x.1.db ≡ true)
            × HasCursor b.binding_id (moved_to c event.id) x.1.db)

    module _ (c : ℕ) (event : KanbanTaskEvent) where
      pub advancing-Moved :
          (action : KanbanAction) (ending : Progress) (status : String)
          (tally : RunCounts → RunCounts) (st : RunState)
          → HasCursor b.binding_id c st.db
          → is_settled b.binding_id event.id st.db ≡ true
          → Moved c event
              (advancing env b board event ending (logged env b board event action status tally) st)
      unfolding Moved HasCursor advancing
      advancing-Moved action ending status tally st (row, found, at) settled =
          let (after, row', moves, found', at') =
            advance-IsMonotone b.binding_id env.utc_now event.id c st.db row found at in
          rw (advancing, moves)
            (inr (
              rw
                  (status-same b.binding_id event.id st.db after (
                    get_outbox-rows b.binding_id event.id st.db after
                      (advance-keeps b.binding_id event.id env.utc_now st.db true after moves).0))
                  settled,
              (row', found', at'),
            ))

      pub marked-HasCursor :
          (status error : String) (http : Option ℕ) (answer : String) (increments : Bool)
          (st : RunState)
          → HasCursor b.binding_id c st.db
          → HasCursor b.binding_id c
              (marking env b board event status error http answer increments st).db
      unfolding HasCursor mark_source_binding_outbox
      marked-HasCursor status error http answer increments st at = at

      marked-settled :
          (status error : String) (http : Option ℕ) (answer : String) (increments : Bool)
          (st : RunState)
          → HasRow b.binding_id event.id st.db
          → IsFinal status
          → is_settled b.binding_id event.id
              (marking env b board event status error http answer increments st).db
            ≡ true
      unfolding HasRow outbox_status marked
      marked-settled status error http answer increments st (row, found) (token, final) =
          rw
            (get_outbox-mark b.binding_id event.id event.id env.utc_now st.db status error http
              answer increments row found)
            (rw token final)

      finishing-Moved :
          (action : KanbanAction) (ending : Progress) (status error : String) (http : Option ℕ)
          (answer : String) (increments : Bool) (tally : RunCounts → RunCounts) (st : RunState)
          → HasCursor b.binding_id c st.db
          → HasRow b.binding_id event.id st.db
          → IsFinal status
          → Moved c event (
              finishing env b board event action ending status error http answer increments tally
                st)
      unfolding finishing
      finishing-Moved action ending status error http answer increments tally st at row final =
          advancing-Moved action ending status tally
            (marking env b board event status error http answer increments st)
            (marked-HasCursor status error http answer increments st at)
            (marked-settled status error http answer increments st row final)

      holding-Moved :
          (action : KanbanAction) (status shown error : String) (http : Option ℕ) (answer : String)
          (increments : Bool) (tally : RunCounts → RunCounts) (st : RunState)
          → HasCursor b.binding_id c st.db
          → Moved c event
              (holding env b board event action status shown error http answer increments tally st)
      unfolding holding Moved HasCursor mark_source_binding_outbox
      holding-Moved action status shown error http answer increments tally st at = inl (refl, at)

      module _ (known : KnowsAscii py) where
        settle_emission-Moved :
            (action : KanbanAction) (r : EmitResult) (st : RunState)
            → HasCursor b.binding_id c st.db
            → HasRow b.binding_id event.id st.db
            → Moved c event (settle_emission env b board event action r st)
        unfolding settle_emission clip
        settle_emission-Moved action r st at row = elim (Bool-cases r.success) [
          | inl s ↦ elim (Bool-cases r.duplicate) [
            | inl d ↦
                simp (settle_emission, s, d)
                  (finishing-Moved action proceeds _ _ _ _ _ _ st at row
                    (word-IsFinal known "duplicate" refl refl refl refl))
            | inr d ↦
                simp (settle_emission, s, d)
                  (finishing-Moved action proceeds _ _ _ _ _ _ st at row
                    (word-IsFinal known "succeeded" refl refl refl refl))
          ]
          | inr s ↦ elim (Bool-cases r.retryable) [
            | inl t ↦ simp (settle_emission, s, t) (holding-Moved action _ _ _ _ _ _ _ st at)
            | inr t ↦
                simp (settle_emission, s, t)
                  (finishing-Moved action stops _ _ _ _ _ _ st at row
                    (word-IsFinal known "error" refl refl refl refl))
          ]
        ]

        attempt-Moved :
            (action : KanbanAction) (envelope : Fields) (l : Handle) (st : RunState)
            → HasCursor b.binding_id c st.db
            → HasRow b.binding_id event.id st.db
            → Moved c event (attempt env b board event action envelope l st)
        unfolding attempt Moved HasCursor
        attempt-Moved action envelope l st at row =
            elim (Except-cases (env.emit st.emissions env.event_url envelope l.secret)) [
              | inr (e, q) ↦ rw (attempt, q) (inl (refl, at))
              | inl (r, q) ↦ rw (attempt, q) (settle_emission-Moved action r _ at row)
            ]

        send_out-Moved :
            (action : KanbanAction) (envelope : Fields) (st : RunState)
            → HasCursor b.binding_id c st.db
            → HasRow b.binding_id event.id st.db
            → Moved c event (send_out env b board event action envelope st)
        unfolding send_out listener_unavailable
        send_out-Moved action envelope st at row =
            elim (Option-cases (get_handle b.listener_thread_key st.db)) [
              | inl e ↦ rw (send_out, e) (holding-Moved action _ _ _ _ _ _ _ st at)
              | inr (l, e) ↦ elim (Bool-cases (is_unavailable env b board l)) [
                | inl u ↦ rw (send_out, e) (rw u (holding-Moved action _ _ _ _ _ _ _ st at))
                | inr u ↦ rw (send_out, e) (rw u (attempt-Moved action envelope l st at row))
              ]
            ]

        suppress-Moved :
            (action : KanbanAction) (st : RunState)
            → HasCursor b.binding_id c st.db
            → HasRow b.binding_id event.id st.db
            → Moved c event (suppress env b board event action st)
        unfolding suppress clip
        suppress-Moved action st at row =
            finishing-Moved action proceeds _ _ _ _ _ _ st at row
              (word-IsFinal known "suppressed" refl refl refl refl)

        pub perform-Moved :
            (action : KanbanAction) (envelope : Fields) (st : RunState)
            → HasCursor b.binding_id c st.db
            → HasRow b.binding_id event.id st.db
            → Moved c event (perform env b board event action envelope st)
        unfolding perform clip
        perform-Moved (would_emit t d) envelope st at row = send_out-Moved _ envelope st at row
        perform-Moved coalesce_routine envelope st at row =
            finishing-Moved coalesce_routine proceeds _ _ _ _ _ _ st at row
              (word-IsFinal known "coalesced" refl refl refl refl)
        perform-Moved routine_event envelope st at row = suppress-Moved routine_event st at row
        perform-Moved not_material envelope st at row = suppress-Moved not_material st at row
        perform-Moved (event_type_not_allowed t) envelope st at row =
            suppress-Moved (event_type_not_allowed t) st at row
