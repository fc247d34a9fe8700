-- ===== src/Registry/SeenLaws.antt =====
-- Laws of the de-dupe marks.
use hermes_plugin_async_thre.Prelude.{
  Bool-cases, List, String, [], any, any-append, arith, eq_iff, false, inl, inr, keep, not, refl,
  true, ◌&&◌, ◌==◌, ◌||◌, ◌∷◌, ◌≡◌,
}
use hermes_plugin_async_thre.Registry.Rows.{Db, SeenEvent}
use hermes_plugin_async_thre.Registry.Seen.{forget_seen, has_seen, is_mark, mark_seen}

eq_sym : (a b : String) → (a == b) ≡ (b == a)
eq_sym a b = ground (arith, eq_iff a b, eq_iff b a)

-- Two keys that one row carries are the same key.
is_mark-match :
    (p e q f : String) (row : SeenEvent)
    → is_mark q f row ≡ true
    → is_mark p e row ≡ (p == q && e == f)
is_mark-match p e q f row h = ground (
  arith,
  eq_iff row.producer_id q,
  eq_iff row.event_id f,
  eq_sym row.producer_id p,
  eq_sym row.event_id e,
  eq_iff row.producer_id p,
  eq_iff row.event_id e,
  eq_iff p q,
  eq_iff e f,
)

any-keep-mark :
    (p e q f : String) (rows : List SeenEvent)
    → any (is_mark q f) (keep (λ row. not (is_mark p e row)) rows)
      ≡ (any (is_mark q f) rows && not (p == q && e == f))
any-keep-mark p e q f [] = refl
any-keep-mark p e q f (row ∷ rows) = elim (Bool-cases (is_mark p e row)) [
  | inl h ↦ rw h (
      ground
        (arith, any-keep-mark p e q f rows, is_mark-match q f p e row h, eq_sym p q, eq_sym e f))
  | inr h ↦ rw h (elim (Bool-cases (is_mark q f row)) [
    | inl g ↦ rw g (ground (arith, is_mark-match p e q f row g, h))
    | inr g ↦ rw g (any-keep-mark p e q f rows)
  ])
]

-- Marking an event of which there is no mark says so, and leaves a mark of exactly that event
-- beside the marks that were there.
pub mark_seen-first :
    (p e key now : String) (db : Db)
    → has_seen p e db ≡ false
    → ((mark_seen p e key now db).0 ≡ true)
      × ((q f : String)
          → has_seen q f (mark_seen p e key now db).1 ≡ (has_seen q f db || (p == q && e == f)))
unfolding mark_seen has_seen
mark_seen-first p e key now db h =
    rw h (refl, λ q f. rw (any-append (is_mark q f) db.seen_events) (ground arith))

-- A second mark of the same event is refused, and changes nothing.
pub mark_seen-again :
    (p e key now : String) (db : Db)
    → has_seen p e db ≡ true
    → mark_seen p e key now db ≡ (false, db)
unfolding mark_seen
mark_seen-again p e key now db h = rw h refl

-- After `forget_seen` there is no mark of that event, and every other mark is as it was.
pub has_seen-forget_seen :
    (p e q f : String) (db : Db)
    → has_seen q f (forget_seen p e db) ≡ (has_seen q f db && not (p == q && e == f))
unfolding has_seen forget_seen
has_seen-forget_seen p e q f db = any-keep-mark p e q f db.seen_events
