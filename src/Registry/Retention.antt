-- ===== src/Registry/Retention.antt =====
-- `get_event_payload` and `prune_payloads`: how a stored payload is fetched, and when it goes.
use Prim.Native.String.{compare}
use package.text.Mathlib.Text.{is_lt}
use hermes_plugin_async_thre.Prelude.{
  Bool, List, Option, String, [], if◌then◌else◌, keep, length, none, not, some, ℕ, ◌&&◌, ◌==◌, ◌||◌,
  ◌∷◌,
}
use hermes_plugin_async_thre.Privacy.{safe_event_id}
use hermes_plugin_async_thre.Python.Runtime.{Runtime}
use hermes_plugin_async_thre.Python.Text.{clip, strip}
use hermes_plugin_async_thre.Registry.Rows.{Db, PayloadRow}

abbrev pub newer : PayloadRow → Option PayloadRow → PayloadRow
newer row none = row
newer row (some other) = if is_lt (compare row.created_at other.created_at) then other else row

-- `order by created_at desc limit 1`; of rows of one time the first one stored
abbrev pub latest : (PayloadRow → Bool) → List PayloadRow → Option PayloadRow
latest p [] = none
latest p (row ∷ rows) = let rest = latest p rows in if p row then some (newer row rest) else rest

-- the clauses on the owner and, where one is given, on the listener
abbrev pub is_fetched_by : String → String → PayloadRow → Bool
is_fetched_by owner thread_key row =
    row.owner_user_id == owner && (thread_key == "" || row.thread_key == thread_key)

-- `expires_at < ?`, on one owner's rows where an owner is given
abbrev pub is_due : String → String → PayloadRow → Bool
is_due before owner row =
    is_lt (compare row.expires_at before) && (owner == "" || row.owner_user_id == owner)

-- `prune_payloads`: the number of rows that are due, and the registry without them
unfoldable pub prune_payloads : String → String → Bool → Db → ℕ × Db
prune_payloads before owner dry_run db = (
  length (keep (is_due before owner) db.event_payloads),
  if dry_run then db else record db {
    event_payloads = keep (λ row. not (is_due before owner row)) db.event_payloads;
  },
)

module _ ⦃py : Runtime⦄ where
  abbrev safe_pointer_id : String → String
  safe_pointer_id pointer_id = clip 200 (strip pointer_id)

  -- `get_event_payload`
  unfoldable pub get_event_payload : String → String → String → String → Db → Option PayloadRow
  unfolding clip strip safe_event_id
  get_event_payload owner pointer_id event_id thread_key db =
      if owner == ""
      then none
      else if not (pointer_id == "")
      then latest
          (λ row.
            is_fetched_by owner thread_key row && row.pointer_id == safe_pointer_id pointer_id)
          db.event_payloads
      else if not (event_id == "")
      then latest
          (λ row. is_fetched_by owner thread_key row && row.event_id == safe_event_id event_id)
          db.event_payloads
      else none
