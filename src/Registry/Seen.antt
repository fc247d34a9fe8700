-- ===== src/Registry/Seen.antt =====
-- The de-dupe marks: one row for each producer and event id.
use hermes_plugin_async_thre.Prelude.{
  Bool, String, [], any, false, if◌then◌else◌, keep, not, true, ◌&&◌, ◌++◌, ◌==◌, ◌∷◌,
}
use hermes_plugin_async_thre.Registry.Rows.{Db, SeenEvent}

abbrev pub is_mark : String → String → SeenEvent → Bool
is_mark producer_id event_id row = row.producer_id == producer_id && row.event_id == event_id

-- `has_seen`
unfoldable pub has_seen : String → String → Db → Bool
has_seen producer_id event_id db = any (is_mark producer_id event_id) db.seen_events

-- `mark_seen`: true only where the insert met no row of that primary key
unfoldable pub mark_seen : String → String → String → String → Db → Bool × Db
unfolding has_seen
mark_seen producer_id event_id thread_key now db =
    if has_seen producer_id event_id db then (false, db) else (
      true,
      record db {
        seen_events =
            db.seen_events
            ++ (record {
              producer_id = producer_id;
              event_id = event_id;
              thread_key = thread_key;
              first_seen_at = now;
            })
              ∷ [];
      },
    )

-- `forget_seen`
unfoldable pub forget_seen : String → String → Db → Db
forget_seen producer_id event_id db = record db {
  seen_events = keep (λ row. not (is_mark producer_id event_id row)) db.seen_events;
}
