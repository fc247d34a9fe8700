-- ===== src/Privacy/Depth.antt =====
-- How deep a sanitized value can be.
use hermes_plugin_async_thre.Prelude.{
  Bool, Bool-cases, String, arith, false, if◌then◌else◌, inl, inr, ltb, max, suc, true, zero, ℕ,
  ◌+◌, ◌-◌, ◌==◌, ◌≡◌, ◌≤◌,
}
use hermes_plugin_async_thre.Privacy.{
  redacted_mark, sanitize, sanitize_fields, sanitize_items, sanitize_untrusted_value,
}
use hermes_plugin_async_thre.Python.Json.{
  Fields, Items, Json, arr, bool, cons, end, field, int, nil, null, obj, put, real, text,
}
use hermes_plugin_async_thre.Python.Runtime.{Runtime}

mutual
  -- the number of containers round the innermost value
  pub depth : Json → ℕ
  depth (arr xs) = suc (depth_items xs)
  depth (obj d) = suc (depth_fields d)
  depth _ = 0

  pub depth_items : Items → ℕ
  depth_items nil = 0
  depth_items (cons x xs) = max (depth x) (depth_items xs)

  pub depth_fields : Fields → ℕ
  depth_fields end = 0
  depth_fields (field k v d) = max (depth v) (depth_fields d)

depth-put-le :
    (k : String) (v : Json) (d : Fields) (n : ℕ)
    → depth v ≤ n
    → depth_fields d ≤ n
    → depth_fields (put k v d) ≤ n
unfolding depth
depth-put-le k v end n h g = omega arith
depth-put-le k v (field j w d) n h g = elim (Bool-cases (k == j)) [
  | inl same ↦ rw same (omega arith)
  | inr other ↦ rw other (omega (arith, depth-put-le k v d n h (omega arith)))
]

-- the replacement of a value that stands too deep
depth-cut-le :
    (n : ℕ) (v : Json) (m : String)
    → (ltb 8 n ≡ false → depth v ≤ 9 - n)
    → depth (if ltb 8 n then text m else v) ≤ 9 - n
unfolding depth
depth-cut-le n v m h = elim (Bool-cases (ltb 8 n)) [
  | inl deep ↦ rw deep (omega arith)
  | inr fits ↦ rw fits (h fits)
]

room_below : (n : ℕ) → ltb 8 n ≡ false → n ≤ 8
room_below n h = ground arith

module _ ⦃py : Runtime⦄ where
  entry_depth :
      (n : ℕ) (unsafe : Bool) (v : Json)
      → depth (sanitize n v) ≤ 9 - n
      → depth (if unsafe then text redacted_mark else sanitize n v) ≤ 9 - n
  unfolding depth
  entry_depth n true v h = omega arith
  entry_depth n false v h = h

  mutual
    unfolding sanitize depth

    depth-sanitize : (n : ℕ) (v : Json) → depth (sanitize n v) ≤ 9 - n
    depth-sanitize n (arr xs) =
        depth-cut-le n _ _
          λ fits. omega (arith, depth-sanitize_items (n + 1) 100 xs, room_below n fits)
    depth-sanitize n (obj d) = depth-cut-le n _ _ λ fits.
        omega (arith, depth-sanitize_fields (n + 1) 100 d end (omega arith), room_below n fits)
    depth-sanitize n null = depth-cut-le n _ _ λ fits. omega arith
    depth-sanitize n (bool b) = depth-cut-le n _ _ λ fits. omega arith
    depth-sanitize n (int i) = depth-cut-le n _ _ λ fits. omega arith
    depth-sanitize n (real r) = depth-cut-le n _ _ λ fits. omega arith
    depth-sanitize n (text s) = depth-cut-le n _ _ λ fits. omega arith

    depth-sanitize_items :
        (n room : ℕ) (xs : Items) → depth_items (sanitize_items n room xs) ≤ 9 - n
    depth-sanitize_items n room nil = omega arith
    depth-sanitize_items n zero (cons x xs) = omega arith
    depth-sanitize_items n (suc room) (cons x xs) =
        omega (arith, depth-sanitize n x, depth-sanitize_items n room xs)

    depth-sanitize_fields :
        (n room : ℕ) (d cleaned : Fields)
        → depth_fields cleaned ≤ 9 - n
        → depth_fields (sanitize_fields n room d cleaned) ≤ 9 - n
    depth-sanitize_fields n room end cleaned h = h
    depth-sanitize_fields n zero (field k v d) cleaned h = h
    depth-sanitize_fields n (suc room) (field k v d) cleaned h = depth-sanitize_fields n room d _ (
        depth-put-le _ _ cleaned (9 - n) (entry_depth n (py.is_unsafe_key k) v (depth-sanitize n v))
          h)

  -- A sanitized value has at most nine containers inside one another, whatever the producer sent.
  pub depth-sanitize_untrusted_value : (v : Json) → depth (sanitize_untrusted_value v) ≤ 9
  unfolding sanitize_untrusted_value
  depth-sanitize_untrusted_value v = omega (arith, depth-sanitize 0 v)
