-- ===== src/Registry/Cursor.antt =====
-- The cursor of a source binding.
use hermes_plugin_async_thre.Prelude.{
  Bool, List, String, [], clamp_zero, false, first, if◌then◌else◌, leb_ℤ, max_ℤ, none, pos, some,
  true, update_where, ℕ, ℤ, ◌==◌, ◌∷◌,
}
use hermes_plugin_async_thre.Python.Except.{Except, ok, raise, ◌>>=◌}
use hermes_plugin_async_thre.Python.Json.{Fields, find, get_or, int, put}
use hermes_plugin_async_thre.Python.Runtime.{Runtime}
use hermes_plugin_async_thre.Python.Values.{is_type_or_value_error, or_default, to_int}
use hermes_plugin_async_thre.Registry.Rows.{Db, SourceBinding}

abbrev pub cursor_keys : List String
cursor_keys = "last_event_id" ∷ "lastEventId" ∷ "taskEventId" ∷ "task_event_id" ∷ []

abbrev pub is_binding : String → SourceBinding → Bool
is_binding binding_id b = b.binding_id == binding_id

-- the two writes that move a cursor
unfoldable pub advanced_cursor : ℕ → Fields → Fields
advanced_cursor event_id cursor =
    put "lastEventId" (int (pos event_id)) (put "last_event_id" (int (pos event_id)) cursor)

-- the update of the row
abbrev pub with_cursor : Fields → String → SourceBinding → SourceBinding
with_cursor cursor now b = record b { cursor = cursor; updated_at = now }

unfoldable pub write_cursor : String → ℕ → Fields → String → Db → Db
unfolding advanced_cursor
write_cursor binding_id event_id cursor now db = record db {
  source_bindings =
      update_where (is_binding binding_id) (with_cursor (advanced_cursor event_id cursor) now)
        db.source_bindings;
}

module _ ⦃py : Runtime⦄ where
  -- the loop over the keys: a value that is not a number is passed over
  unfoldable pub position_from : Fields → List String → ℤ → Except ℤ
  unfolding to_int or_default
  position_from cursor [] current = ok current
  position_from cursor (k ∷ ks) current = do
    value ← or_default (to_int (get_or k (int (pos 0)) cursor)) current
    position_from cursor ks (max_ℤ current value)

  unfoldable pub cursor_position : Fields → Except ℤ
  unfolding position_from
  cursor_position cursor = position_from cursor cursor_keys (pos 0)

  -- `advance_source_binding_cursor`
  unfoldable pub advance_source_binding_cursor : String → ℕ → String → Db → Except (Bool × Db)
  unfolding cursor_position write_cursor
  advance_source_binding_cursor binding_id event_id now db =
      elim (first (is_binding binding_id) db.source_bindings) [
        | none ↦ ok (false, db)
        | some row ↦ do
          current ← cursor_position row.cursor
          let after =
              if leb_ℤ (pos event_id) current
              then db
              else write_cursor binding_id event_id row.cursor now db
          ok (true, after)
      ]

  -- `_cursor_event_id` of the runner: the first key that is there and holds a number
  unfoldable pub first_position : Fields → List String → Except ℕ
  unfolding to_int
  first_position cursor [] = ok 0
  first_position cursor (k ∷ ks) =
      let others = first_position cursor ks in
      elim (find k cursor) [
        | none ↦ others
        | some v ↦ elim (to_int v) [
          | ok i ↦ ok (clamp_zero i)
          | raise e ↦ if is_type_or_value_error e then others else raise e
        ]
      ]

  unfoldable pub cursor_event_id : Fields → Except ℕ
  unfolding first_position
  cursor_event_id cursor = first_position cursor cursor_keys
