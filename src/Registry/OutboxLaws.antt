-- ===== src/Registry/OutboxLaws.antt =====
-- Laws of the outbox: what a row is after the two writes.
use package.text.Mathlib.TextPositions.{eq_refl}
use hermes_plugin_async_thre.Prelude.{
  Bool, Option, Option-cases, String, arith, false, first, first-append, first-append_other,
  first-update, first-update_other, inl, inr, nat_eq, none, refl, some, true, ℕ, ◌∙◌, ◌≡◌, ◌⊎◌,
}
use hermes_plugin_async_thre.Python.Json.{Fields}
use hermes_plugin_async_thre.Python.Runtime.{Runtime}
use hermes_plugin_async_thre.Registry.Outbox.{
  get_outbox, is_outbox_row, mark_source_binding_outbox, marked, new_outbox,
  upsert_source_binding_outbox,
}
use hermes_plugin_async_thre.Registry.Rows.{Db, OutboxRow}

abbrev pub Apart : ℕ → ℕ → Type 0
Apart n m = nat_eq n m ≡ false

rows-Apart :
    (id : String) (n m : ℕ)
    → Apart n m
    → (r : OutboxRow) → is_outbox_row id m r ≡ true
    → is_outbox_row id n r ≡ false
rows-Apart id n m h r e = ground (arith, h, e)

module _ ⦃py : Runtime⦄ (id : String) (n m : ℕ) (now : String) (db : Db) where
  module _ (status error : String) (http : Option ℕ) (receiver : String) (increments : Bool) where
    abbrev after_mark : Db
    after_mark = (mark_source_binding_outbox id m status error http receiver increments now db).1

    -- The row that is marked carries the status, as a token.
    pub get_outbox-mark :
        (row : OutboxRow)
        → get_outbox id m db ≡ some row
        → get_outbox id m after_mark ≡ some (marked status error http receiver increments now row)
    unfolding get_outbox mark_source_binding_outbox marked
    get_outbox-mark row h =
        first-update (is_outbox_row id m) (marked status error http receiver increments now)
          db.outbox row (λ r. refl) h

    -- Other events' rows stay.
    pub get_outbox-mark_other : Apart n m → get_outbox id n after_mark ≡ get_outbox id n db
    unfolding get_outbox mark_source_binding_outbox marked
    get_outbox-mark_other h =
        first-update_other (is_outbox_row id n) (is_outbox_row id m)
          (marked status error http receiver increments now) db.outbox (λ r. refl)
          (rows-Apart id n m h)

  module _ (ath_event_id event_type action : String) (envelope : Fields) where
    abbrev after_upsert : Db
    after_upsert = upsert_source_binding_outbox id m ath_event_id event_type action envelope now db

    abbrev new_row : OutboxRow
    new_row = new_outbox id m ath_event_id event_type action envelope now db

    new-own : is_outbox_row id m new_row ≡ true
    unfolding new_outbox
    new-own = rw (eq_refl id) (ground arith)

    new-Apart : Apart n m → is_outbox_row id n new_row ≡ false
    new-Apart h = rows-Apart id n m h new_row new-own

    row_of : get_outbox id m db ≡ none → first (is_outbox_row id m) db.outbox ≡ none
    unfolding get_outbox
    row_of e = e

    -- After the insert there is a row: the one that was there, or a new one that is pending.
    pub get_outbox-upsert :
        (row : OutboxRow) × (get_outbox id m after_upsert ≡ some row)
        × ((get_outbox id m db ≡ some row)
            ⊎ ((get_outbox id m db ≡ none) × (row.status ≡ "pending")))
    unfolding upsert_source_binding_outbox get_outbox new_outbox
    get_outbox-upsert = elim (Option-cases (get_outbox id m db)) [
      | inr (row, e) ↦ (row, rw (upsert_source_binding_outbox, e) e, inl e)
      | inl e ↦ (
        new_outbox id m ath_event_id event_type action envelope now db,
        rw (upsert_source_binding_outbox, e)
            (first-append (is_outbox_row id m) db.outbox _ (row_of e) ∙ rw new-own refl),
        inr (e, refl),
      )
    ]

    pub get_outbox-upsert_other : Apart n m → get_outbox id n after_upsert ≡ get_outbox id n db
    unfolding upsert_source_binding_outbox get_outbox
    get_outbox-upsert_other h = elim (Option-cases (get_outbox id m db)) [
      | inr (row, e) ↦ rw (upsert_source_binding_outbox, e) refl
      | inl e ↦
          rw (upsert_source_binding_outbox, e)
            (first-append_other (is_outbox_row id n) db.outbox _ (new-Apart h))
    ]
