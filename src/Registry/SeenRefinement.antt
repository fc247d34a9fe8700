-- ===== src/Registry/SeenRefinement.antt =====
-- The table of de-dupe marks as an implementation of a set of events.
use hermes_plugin_async_thre.Prelude.{
  Bool, Bool-cases, List, String, [], arith, eq_iff, inl, inr, not, refl, true, ◌&&◌, ◌==◌, ◌||◌,
  ◌∙◌, ◌∷◌, ◌≡◌,
}
use hermes_plugin_async_thre.Registry.Rows.{Db}
use hermes_plugin_async_thre.Registry.Seen.{forget_seen, has_seen, mark_seen}
use hermes_plugin_async_thre.Registry.SeenLaws.{
  has_seen-forget_seen, mark_seen-again, mark_seen-first,
}

-- a call on the marks
pub data SeenCall : Type 0 where
  marks : String → String → String → String → SeenCall
  forgets : String → String → SeenCall

-- what the calls answer, and the table after them; `forget_seen` answers nothing
unfoldable pub run_calls : List SeenCall → Db → List Bool × Db
run_calls [] db = ([], db)
run_calls (marks p e key now ∷ calls) db =
    let call = mark_seen p e key now db in
    let others = run_calls calls call.1 in (call.0 ∷ others.0, others.1)
run_calls (forgets p e ∷ calls) db = run_calls calls (forget_seen p e db)

-- a set of events, each a producer and an event id, as its test of membership
abbrev pub EventSet : Type 0
EventSet = String → String → Bool

-- the same calls on a set: a mark answers whether the event is new
unfoldable pub run_set : List SeenCall → EventSet → List Bool × EventSet
run_set [] s = ([], s)
run_set (marks p e key now ∷ calls) s =
    let others = run_set calls (λ q f. s q f || (p == q && e == f)) in
    (not (s p e) ∷ others.0, others.1)
run_set (forgets p e ∷ calls) s = run_set calls (λ q f. s q f && not (p == q && e == f))

-- the marks of the table are the members of the set
unfoldable pub Represents : Db → EventSet → Type 0
Represents db s = (q f : String) → has_seen q f db ≡ s q f

has_seen-same :
    (p e q f : String) (db : Db) → (p == q && e == f) ≡ true → has_seen q f db ≡ has_seen p e db
has_seen-same p e q f db m =
    let same_p : p ≡ q = ground (arith, eq_iff p q, m) in
    let same_e : e ≡ f = ground (arith, eq_iff e f, m) in rw (same_p, same_e) refl

mark_seen-Represents :
    (p e key now : String) (db : Db) (s : EventSet)
    → Represents db s
    → ((mark_seen p e key now db).0 ≡ not (s p e))
      × Represents (mark_seen p e key now db).1 (λ q f. s q f || (p == q && e == f))
unfolding Represents
mark_seen-Represents p e key now db s same = elim (Bool-cases (has_seen p e db)) [
  | inr fresh ↦
      let (answer, after) = mark_seen-first p e key now db fresh in
      (answer ∙ ground (arith, same p e, fresh), λ q f. after q f ∙ rw (same q f) refl)
  | inl old ↦ rw (mark_seen-again p e key now db old) (
    ground (arith, same p e, old),
    λ q f. elim (Bool-cases (p == q && e == f)) [
      | inl m ↦ ground (arith, m, has_seen-same p e q f db m, old)
      | inr m ↦ ground (arith, m, same q f)
    ],
  )
]

forget_seen-Represents :
    (p e : String) (db : Db) (s : EventSet)
    → Represents db s
    → Represents (forget_seen p e db) (λ q f. s q f && not (p == q && e == f))
unfolding Represents
forget_seen-Represents p e db s same = λ q f. has_seen-forget_seen p e q f db ∙ rw (same q f) refl

-- Any sequence of `mark_seen` and `forget_seen` on a table that represents a set gives the answers that
-- the set gives, and leaves a table that represents the resulting set.
pub seen_events_refine_set :
    (calls : List SeenCall) (db : Db) (s : EventSet)
    → Represents db s
    → ((run_calls calls db).0 ≡ (run_set calls s).0)
      × Represents (run_calls calls db).1 (run_set calls s).1
unfolding run_calls run_set
seen_events_refine_set [] db s same = (refl, same)
seen_events_refine_set (marks p e key now ∷ calls) db s same =
    let (answer, after) = mark_seen-Represents p e key now db s same in
    let (answers, final) =
      seen_events_refine_set calls (mark_seen p e key now db).1 (λ q f. s q f || (p == q && e == f))
        after in
    (rw (answer, answers) refl, final)
seen_events_refine_set (forgets p e ∷ calls) db s same =
    seen_events_refine_set calls (forget_seen p e db) (λ q f. s q f && not (p == q && e == f))
      (forget_seen-Represents p e db s same)
