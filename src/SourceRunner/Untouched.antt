-- ===== src/SourceRunner/Untouched.antt =====
-- An event whose outbox row is settled, or that a pass is not about, is left alone by the runner.
use hermes_plugin_async_thre.Prelude.{
  Bool, Bool-cases, List, Option, Option-cases, String, [], ap, false, first, inl, inr, keep, leb_ℤ,
  length, nat_eq, pos, refl, true, ℕ, ◌++◌, ◌∙◌, ◌∷◌, ◌≡◌,
}
use hermes_plugin_async_thre.Kanban.Transform.{KanbanAction, KanbanTaskEvent}
use hermes_plugin_async_thre.Python.Except.{Except, Except-cases, ok, ok-injective}
use hermes_plugin_async_thre.Python.Runtime.{Runtime}
use hermes_plugin_async_thre.Registry.Cursor.{
  advance_source_binding_cursor, cursor_position, is_binding, write_cursor,
}
use hermes_plugin_async_thre.Registry.Outbox.{
  get_outbox, is_outbox_row, mark_source_binding_outbox, upsert_source_binding_outbox,
}
use hermes_plugin_async_thre.Registry.OutboxLaws.{
  Apart, get_outbox-mark_other, get_outbox-upsert_other,
}
use hermes_plugin_async_thre.Registry.Rows.{Db, SourceBinding}
use hermes_plugin_async_thre.SourceRunner.Outcomes.{
  action_name, action_type, advancing, event_key, logged, marking, runner_envelope,
}
use hermes_plugin_async_thre.SourceRunner.State.{
  Emission, Progress, RunCounts, RunState, RunnerEnv, outbox_status, row_status, with_run_db,
}
use hermes_plugin_async_thre.SourceRunner.Steps.{stored}

-- how often an event was sent
abbrev pub sent_for : ℕ → List Emission → ℕ
sent_for n out = length (keep (λ (e : Emission). nat_eq n e.upstream_event_id) out)

-- the event's row has the same status, nothing more was sent for it, and the listeners are the same
unfoldable pub Untouched : SourceBinding → ℕ → RunState → RunState → Type 0
Untouched b n before after =
    (outbox_status b.binding_id n after.db ≡ outbox_status b.binding_id n before.db)
    × (sent_for n after.emissions ≡ sent_for n before.emissions)
    × (after.db.handles ≡ before.db.handles)

pub length-keep-append :
    (n : ℕ) (out : List Emission) (e : Emission)
    → nat_eq n e.upstream_event_id ≡ false
    → sent_for n (out ++ e ∷ []) ≡ sent_for n out
length-keep-append n [] e h = rw h refl
length-keep-append n (x ∷ xs) e h = elim (Bool-cases (nat_eq n x.upstream_event_id)) [
  | inl q ↦ rw q (rw (length-keep-append n xs e h) refl)
  | inr q ↦ rw q (length-keep-append n xs e h)
]

module _ ⦃py : Runtime⦄ where
  -- what a cursor's move leaves as it is
  abbrev pub KeepsRows : Db → Except (Bool × Db) → Type 0
  KeepsRows db x =
      (moved : Bool) (db' : Db)
      → x ≡ ok (moved, db')
      → (db'.outbox ≡ db.outbox) × (db'.handles ≡ db.handles)

  kept_rows :
      (db : Db) (x y : Bool × Db)
      → x.1.outbox ≡ db.outbox
      → x.1.handles ≡ db.handles
      → ok x ≡ ok y
      → (y.1.outbox ≡ db.outbox) × (y.1.handles ≡ db.handles)
  kept_rows db x y o h e = let same : x ≡ y = ok-injective e in (rw⁻¹ same o, rw⁻¹ same h)

  -- moving a cursor changes no outbox row and no listener
  pub advance-keeps :
      (id : String) (m : ℕ) (now : String) (db : Db)
      → KeepsRows db (advance_source_binding_cursor id m now db)
  unfolding advance_source_binding_cursor write_cursor
  advance-keeps id m now db = elim (Option-cases (first (is_binding id) db.source_bindings)) [
    | inl e ↦
        rw (advance_source_binding_cursor, e)
          (λ moved db' h. kept_rows db (false, db) (moved, db') refl refl h)
    | inr (row, e) ↦ elim (Except-cases (cursor_position row.cursor)) [
      | inr (x, q) ↦ rw (advance_source_binding_cursor, e) (rw q (λ moved db' h. cc))
      | inl (current, q) ↦ elim (Bool-cases (leb_ℤ (pos m) current)) [
        | inl l ↦
            rw (advance_source_binding_cursor, e)
              (rw q (rw l (λ moved db' h. kept_rows db (true, db) (moved, db') refl refl h)))
        | inr l ↦
            rw (advance_source_binding_cursor, e)
              (rw q (
                rw l (λ moved db' h.
                  kept_rows db (true, (write_cursor id m row.cursor now db)) (moved, db') refl refl
                    h)))
      ]
    ]
  ]

  pub status-same :
      (id : String) (n : ℕ) (db db' : Db)
      → get_outbox id n db' ≡ get_outbox id n db
      → outbox_status id n db' ≡ outbox_status id n db
  unfolding outbox_status
  status-same id n db db' h = ap row_status h

  pub get_outbox-rows :
      (id : String) (n : ℕ) (db db' : Db)
      → db'.outbox ≡ db.outbox
      → get_outbox id n db' ≡ get_outbox id n db
  unfolding get_outbox
  get_outbox-rows id n db db' h = ap (first (is_outbox_row id n)) h

  module _ (env : RunnerEnv) (b : SourceBinding) (board : String) where
    pub Untouched-refl : (n : ℕ) (st : RunState) → Untouched b n st st
    unfolding Untouched
    Untouched-refl n st = (refl, refl, refl)

    pub Untouched-trans :
        (n : ℕ) (s t u : RunState) → Untouched b n s t → Untouched b n t u → Untouched b n s u
    unfolding Untouched
    Untouched-trans n s t u h g = (g.0 ∙ h.0, g.1 ∙ h.1, g.2 ∙ h.2)

    pub logged-Untouched :
        (n : ℕ) (event : KanbanTaskEvent) (action : KanbanAction) (status : String)
        (tally : RunCounts → RunCounts) (st : RunState)
        → Untouched b n st (logged env b board event action status tally st)
    unfolding Untouched
    logged-Untouched n event action status tally st = (refl, refl, refl)

    marked-handles :
        (db : Db) (id : String) (m : ℕ) (status error : String) (http : Option ℕ) (answer : String)
        (increments : Bool) (now : String)
        → (mark_source_binding_outbox id m status error http answer increments now db).1.handles
          ≡ db.handles
    unfolding mark_source_binding_outbox
    marked-handles db id m status error http answer increments now = refl

    pub stored-handles :
        (event : KanbanTaskEvent) (action : KanbanAction) (st : RunState)
        → (stored env b board event action st).db.handles ≡ st.db.handles
    unfolding upsert_source_binding_outbox
    stored-handles event action st = elim (Option-cases (get_outbox b.binding_id event.id st.db)) [
      | inl e ↦ rw (upsert_source_binding_outbox, e) refl
      | inr (row, e) ↦ rw (upsert_source_binding_outbox, e) refl
    ]

    pub marking-Untouched :
        (n : ℕ) (event : KanbanTaskEvent) (status error : String) (http : Option ℕ)
        (answer : String) (increments : Bool) (st : RunState)
        → Apart n event.id
        → Untouched b n st (marking env b board event status error http answer increments st)
    unfolding Untouched outbox_status
    marking-Untouched n event status error http answer increments st h = (
      rw
          (get_outbox-mark_other b.binding_id n event.id env.utc_now st.db status error http answer
            increments h)
          refl,
      refl,
      marked-handles st.db b.binding_id event.id status error http answer increments env.utc_now,
    )

    pub stored-Untouched :
        (n : ℕ) (event : KanbanTaskEvent) (action : KanbanAction) (st : RunState)
        → Apart n event.id
        → Untouched b n st (stored env b board event action st)
    unfolding Untouched outbox_status
    stored-Untouched n event action st h = (
      rw
          (get_outbox-upsert_other b.binding_id n event.id env.utc_now st.db
            (event_key env b board event) (action_type action) (action_name action)
            (runner_envelope env.utc_now_iso action) h)
          refl,
      refl,
      stored-handles event action st,
    )

    pub moved-Untouched :
        (n : ℕ) (event : KanbanTaskEvent) (st : RunState) (moved : Bool) (db : Db)
        → advance_source_binding_cursor b.binding_id event.id env.utc_now st.db ≡ ok (moved, db)
        → Untouched b n st (with_run_db db st)
    unfolding Untouched
    moved-Untouched n event st moved db q = (
      status-same b.binding_id n st.db db (
          get_outbox-rows b.binding_id n st.db db
            (advance-keeps b.binding_id event.id env.utc_now st.db moved db q).0),
      refl,
      (advance-keeps b.binding_id event.id env.utc_now st.db moved db q).1,
    )

    -- `rest` only counts and logs
    pub advancing-Untouched :
        (n : ℕ) (event : KanbanTaskEvent) (ending : Progress) (rest : RunState → RunState)
        (st : RunState)
        → ((s : RunState) → Untouched b n s (rest s))
        → Untouched b n st (advancing env b board event ending rest st).1
    unfolding advancing
    advancing-Untouched n event ending rest st quiet =
        elim (Except-cases
          (advance_source_binding_cursor b.binding_id event.id env.utc_now st.db)) [
            | inr (e, q) ↦ rw (advancing, q) (Untouched-refl n st)
            | inl ((moved, db), q) ↦
                rw (advancing, q)
                  (Untouched-trans n st (with_run_db db st) (rest (with_run_db db st))
                    (moved-Untouched n event st moved db q) (quiet (with_run_db db st)))
          ]
