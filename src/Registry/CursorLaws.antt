-- ===== src/Registry/CursorLaws.antt =====
-- The cursor of a source binding only moves forward.
use hermes_plugin_async_thre.Prelude.{
  Bool-cases, List, Option, String, [], ap, arith, elem, false, first, if◌then◌else◌, inl, inr, leb,
  leb_ℤ, max_ℤ, none, pos, refl, some, sym, true, update_where, ℕ, ℤ, ◌<◌, ◌==◌, ◌∙◌, ◌∷◌, ◌≡◌,
  ◌≤ℤ◌,
}
use hermes_plugin_async_thre.Python.Dicts.{find-put}
use hermes_plugin_async_thre.Python.Except.{Except, bind-eq-ok, ok, ok-injective, raise}
use hermes_plugin_async_thre.Python.Json.{Fields, Json, get_or, int, put}
use hermes_plugin_async_thre.Python.Runtime.{Runtime}
use hermes_plugin_async_thre.Python.Values.{is_type_or_value_error, or_default, to_int}
use hermes_plugin_async_thre.Registry.Cursor.{
  advance_source_binding_cursor, advanced_cursor, cursor_position, is_binding, position_from,
  with_cursor, write_cursor,
}
use hermes_plugin_async_thre.Registry.Rows.{Db, SourceBinding}

max-le : (a b c : ℤ) → max_ℤ a b ≤ℤ c → (a ≤ℤ c) × (b ≤ℤ c)
max-le a b c h = ground arith

le-trans : (a b c : ℤ) → a ≤ℤ b → b ≤ℤ c → a ≤ℤ c
le-trans a b c h g = omega (arith, h, g)

max-pos : (n m : ℕ) (a : ℤ) → a ≤ℤ pos m → m < n → max_ℤ (pos n) a ≡ pos n
max-pos n m a h lt = ground arith

-- a value that is read, or passed over, without moving the cursor past `m` does not move `n` either
stays :
    (t : Except ℤ) (cur a : ℤ) (n m : ℕ)
    → or_default t cur ≡ ok a
    → max_ℤ cur a ≤ℤ pos m
    → m < n
    → (a' : ℤ) × (or_default t (pos n) ≡ ok a') × (max_ℤ (pos n) a' ≡ pos n)
unfolding or_default
stays (ok v) cur a n m h le lt =
    (v, refl, max-pos n m v (rw (ok-injective h) (max-le cur a (pos m) le).1) lt)
stays (raise e) cur a n m h le lt = elim (Bool-cases (is_type_or_value_error e)) [
  | inl g ↦ (pos n, rw g refl, ground arith)
  | inr g ↦ ground arith
]

leb-pos : (n m : ℕ) → leb_ℤ (pos n) (pos m) ≡ leb n m
leb-pos n m = ground arith

first-head :
    (id : String) (x : SourceBinding) (xs : List SourceBinding)
    → is_binding id x ≡ true
    → first (is_binding id) (x ∷ xs) ≡ some x
first-head id x xs e = rw e refl

first-tail :
    (id : String) (x : SourceBinding) (xs : List SourceBinding)
    → is_binding id x ≡ false
    → first (is_binding id) (x ∷ xs) ≡ first (is_binding id) xs
first-tail id x xs e = rw e refl

map_cursor : Fields → String → Option SourceBinding → Option SourceBinding
map_cursor c now none = none
map_cursor c now (some b) = some (with_cursor c now b)

first-update :
    (id : String) (c : Fields) (now : String) (bs : List SourceBinding) (b : SourceBinding)
    → first (is_binding id) bs ≡ some b
    → first (is_binding id) (update_where (is_binding id) (with_cursor c now) bs)
      ≡ some (with_cursor c now b)
unfolding map_cursor
first-update id c now [] b h = cc
first-update id c now (x ∷ xs) b h = elim (Bool-cases (is_binding id x)) [
  | inl e ↦ rw e (rw e (ap (map_cursor c now) (sym (first-head id x xs e) ∙ h)))
  | inr e ↦ rw e (rw e (first-update id c now xs b (sym (first-tail id x xs e) ∙ h)))
]

first-write :
    (id : String) (n : ℕ) (c : Fields) (now : String) (db : Db) (b : SourceBinding)
    → first (is_binding id) db.source_bindings ≡ some b
    → first (is_binding id) (write_cursor id n c now db).source_bindings
      ≡ some (with_cursor (advanced_cursor n c) now b)
unfolding write_cursor
first-write id n c now db b h = first-update id (advanced_cursor n c) now db.source_bindings b h

max-zero : (n : ℕ) → max_ℤ (pos 0) (pos n) ≡ pos n
max-zero n = ground arith

max-same : (n : ℕ) → max_ℤ (pos n) (pos n) ≡ pos n
max-same n = ground arith

abbrev later_keys : List String
later_keys = "taskEventId" ∷ "task_event_id" ∷ []

module _ ⦃py : Runtime⦄ where
  -- one pass of the loop
  position_from-step :
      (c : Fields) (k : String) (ks : List String) (cur r : ℤ)
      → position_from c (k ∷ ks) cur ≡ ok r
      → (a : ℤ) × (or_default (to_int (get_or k (int (pos 0)) c)) cur ≡ ok a)
        × (position_from c ks (max_ℤ cur a) ≡ ok r)
  unfolding position_from
  position_from-step c k ks cur r h =
      bind-eq-ok (or_default (to_int (get_or k (int (pos 0)) c)) cur)
        (λ a. position_from c ks (max_ℤ cur a)) h

  position_from-ge :
      (c : Fields) (ks : List String) (cur r : ℤ) → position_from c ks cur ≡ ok r → cur ≤ℤ r
  unfolding position_from
  position_from-ge c [] cur r h = rw (ok-injective h) (omega arith)
  position_from-ge c (k ∷ ks) cur r h =
      let (a, e, g) = position_from-step c k ks cur r h in
      (max-le cur a r (position_from-ge c ks (max_ℤ cur a) r g)).0

  position_from-stays :
      (c : Fields) (ks : List String) (cur : ℤ) (m n : ℕ)
      → position_from c ks cur ≡ ok (pos m)
      → m < n
      → position_from c ks (pos n) ≡ ok (pos n)
  unfolding position_from
  position_from-stays c [] cur m n h lt = refl
  position_from-stays c (k ∷ ks) cur m n h lt =
      let (a, e, g) = position_from-step c k ks cur (pos m) h in
      let (a', e', g') =
        stays (to_int (get_or k (int (pos 0)) c)) cur a n m e
          (position_from-ge c ks (max_ℤ cur a) (pos m) g) lt in
      rw e' (rw g' (position_from-stays c ks (max_ℤ cur a) m n g lt))

  -- a key that is not written
  get_or-advanced :
      (k : String) (v : Json) (n : ℕ) (c : Fields)
      → (k == "lastEventId") ≡ false
      → (k == "last_event_id") ≡ false
      → get_or k v (advanced_cursor n c) ≡ get_or k v c
  unfolding advanced_cursor
  get_or-advanced k v n c h g =
      rw (get_or, find-put "lastEventId" k (int (pos n)) (put "last_event_id" (int (pos n)) c))
        (rw h (rw (find-put "last_event_id" k (int (pos n)) c) (rw g refl)))

  -- a key that is written
  get_or-written :
      (k : String) (v : Json) (n : ℕ) (c : Fields)
      → elem k ("last_event_id" ∷ "lastEventId" ∷ []) ≡ true
      → get_or k v (advanced_cursor n c) ≡ int (pos n)
  unfolding advanced_cursor
  get_or-written k v n c h =
      rw (get_or, find-put "lastEventId" k (int (pos n)) (put "last_event_id" (int (pos n)) c))
        (rw (find-put "last_event_id" k (int (pos n)) c) (ground arith))

  -- The position of a cursor that was moved to `n`, which lay past its position, is `n`.
  pub position-advanced :
      (cursor : Fields) (m n : ℕ)
      → cursor_position cursor ≡ ok (pos m)
      → m < n
      → cursor_position (advanced_cursor n cursor) ≡ ok (pos n)
  unfolding cursor_position position_from to_int or_default
  position-advanced cursor m n h lt =
      let (a, e, g) =
        position_from-step cursor "last_event_id" ("lastEventId" ∷ later_keys) (pos 0) (pos m) h in
      let (b, f, i) =
        position_from-step cursor "lastEventId" later_keys (max_ℤ (pos 0) a) (pos m) g in
      rw (get_or-written "last_event_id" (int (pos 0)) n cursor refl) (
        rw (get_or-written "lastEventId" (int (pos 0)) n cursor refl) (
          rw (get_or-advanced "taskEventId" (int (pos 0)) n cursor refl refl) (
            rw (get_or-advanced "task_event_id" (int (pos 0)) n cursor refl refl) (
              rw (max-zero n) (
                rw (max-same n)
                  (position_from-stays cursor later_keys (max_ℤ (max_ℤ (pos 0) a) b) m n i lt))))))

  -- `advance_source_binding_cursor` on a binding whose cursor stands at `m` says so, and leaves the
  -- cursor of that binding at the larger of `m` and the event that it was given.
  pub advance-IsMonotone :
      (binding_id now : String) (n m : ℕ) (db : Db) (b : SourceBinding)
      → first (is_binding binding_id) db.source_bindings ≡ some b
      → cursor_position b.cursor ≡ ok (pos m)
      → (after : Db) × (b' : SourceBinding) × (advance_source_binding_cursor binding_id n now db
          ≡ ok (true, after))
        × (first (is_binding binding_id) after.source_bindings ≡ some b')
        × (cursor_position b'.cursor ≡ ok (pos (if leb n m then m else n)))
  unfolding advance_source_binding_cursor
  advance-IsMonotone binding_id now n m db b h g = elim (Bool-cases (leb n m)) [
    | inl e ↦ (
      db,
      b,
      rw (advance_source_binding_cursor, h) (rw g (rw (leb-pos n m) (rw e refl))),
      h,
      rw e g,
    )
    | inr e ↦ (
      write_cursor binding_id n b.cursor now db,
      with_cursor (advanced_cursor n b.cursor) now b,
      rw (advance_source_binding_cursor, h) (rw g (rw (leb-pos n m) (rw e refl))),
      first-write binding_id n b.cursor now db b h,
      rw e (position-advanced b.cursor m n g (ground (arith, e))),
    )
  ]
