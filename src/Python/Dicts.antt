-- ===== src/Python/Dicts.antt =====
-- Laws of Python's dicts: what a read gives after a write.
use hermes_plugin_async_thre.Prelude.{
  String, arith, eq_iff, false, if◌then◌else◌, none, refl, some, ◌==◌, ◌≡◌,
}
use hermes_plugin_async_thre.Python.Json.{Fields, Json, end, field, find, get, null, put}

-- A read after a write: the new value at the written key, the old value at any other.
pub find-put :
    (k j : String) (v : Json) (d : Fields)
    → find j (put k v d) ≡ (if j == k then some v else find j d)
find-put k j v end = refl
find-put k j v (field i w d) = ground (arith, find-put k j v d, eq_iff k i, eq_iff j i, eq_iff j k)

-- A key that no written key equals keeps its value.
pub find-put_ne :
    (k j : String) (v : Json) (d : Fields) → (j == k) ≡ false → find j (put k v d) ≡ find j d
find-put_ne k j v d h = rw (find-put k j v d) (rw h)

pub get-field :
    (j k : String) (v : Json) (d : Fields) → get j (field k v d) ≡ (if j == k then v else get j d)
get-field j k v d = ground arith

pub get-put :
    (j k : String) (v : Json) (d : Fields) → get j (put k v d) ≡ (if j == k then v else get j d)
get-put j k v d = ground (arith, find-put k j v d)

pub get-missing : (k : String) (d : Fields) → find k d ≡ none → get k d ≡ null
get-missing k d h = ground arith
