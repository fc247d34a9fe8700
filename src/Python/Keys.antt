-- ===== src/Python/Keys.antt =====
-- Dicts whose keys are distinct, and what merging one into another gives.
use hermes_plugin_async_thre.Prelude.{
  Bool-cases, Option, String, arith, eq_iff, false, inl, inr, none, refl, some, ◌==◌, ◌∙◌, ◌≡◌,
}
use hermes_plugin_async_thre.Python.Dicts.{find-put, find-put_ne}
use hermes_plugin_async_thre.Python.Json.{Fields, Json, end, field, find, is_empty_dict, merge, put}

-- No key stands twice.
abbrev pub IsDict : Fields → Type 0
IsDict end = Unit
IsDict (field k v d) = (find k d ≡ none) × IsDict d

pub put-IsDict : (k : String) (v : Json) (d : Fields) → IsDict d → IsDict (put k v d)
put-IsDict k v end h = (refl, tt)
put-IsDict k v (field j w d) h = elim (Bool-cases (k == j)) [
  | inl same ↦ rw same h
  | inr other ↦
      rw other
        (find-put_ne k j v d (ground (arith, eq_iff k j, eq_iff j k)) ∙ h.0, put-IsDict k v d h.1)
]

-- a value, or else another
abbrev pub or_else : Option Json → Option Json → Option Json
or_else none b = b
or_else (some v) b = some v

pub find-merge :
    (k : String) (d e : Fields) → IsDict e → find k (merge d e) ≡ or_else (find k e) (find k d)
find-merge k d end h = refl
find-merge k d (field j v e) h =
    find-merge k (put j v d) e h.1 ∙ ground (arith, find-put j k v d, eq_iff k j)

pub put-nonempty : (k : String) (v : Json) (d : Fields) → is_empty_dict (put k v d) ≡ false
put-nonempty k v end = refl
put-nonempty k v (field j w d) = ground arith

pub merge-nonempty : (d e : Fields) → is_empty_dict d ≡ false → is_empty_dict (merge d e) ≡ false
merge-nonempty d end h = h
merge-nonempty d (field k v e) h = merge-nonempty (put k v d) e (put-nonempty k v d)

pub merge-nonempty_right :
    (d e : Fields) → is_empty_dict e ≡ false → is_empty_dict (merge d e) ≡ false
merge-nonempty_right d end h = cc
merge-nonempty_right d (field k v e) h = merge-nonempty (put k v d) e (put-nonempty k v d)
