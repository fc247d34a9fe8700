-- ===== src/Python/Json.antt =====
-- Python values that come from JSON. A float is kept by its `repr`, which determines it; a dict is a
-- list of fields in insertion order whose first field of a key counts.
use hermes_plugin_async_thre.Prelude.{
  Bool, List, Option, String, [], false, if◌then◌else◌, none, some, true, ℤ, ◌==◌, ◌∷◌,
}

mutual
  pub data Json : Type 0 where
    null : Json
    bool : Bool → Json
    int : ℤ → Json
    real : String → Json
    text : String → Json
    arr : Items → Json
    obj : Fields → Json

  pub data Items : Type 0 where
    nil : Items
    cons : Json → Items → Items

  pub data Fields : Type 0 where
    end : Fields
    field : String → Json → Fields → Fields

-- `d[key]` where `key in d`.
abbrev pub find : String → Fields → Option Json
find k end = none
find k (field j v d) = let rest = find k d in if k == j then some v else rest

-- `d.get(key)`
abbrev pub get : String → Fields → Json
get k d = elim (find k d) [ none ↦ null | some v ↦ v ]

-- `d.get(key, default)`
abbrev pub get_or : String → Json → Fields → Json
get_or k v d = elim (find k d) [ none ↦ v | some w ↦ w ]

-- `d[key] = v`
abbrev pub put : String → Json → Fields → Fields
put k v end = field k v end
put k v (field j w d) = let rest = field j w (put k v d) in if k == j then field j v d else rest

-- `{**d, ...}` of one more dict, `d.update(e)`
abbrev pub merge : Fields → Fields → Fields
merge d end = d
merge d (field k v e) = merge (put k v d) e

-- `isinstance(value, Mapping)`, with the fields.
abbrev pub fields? : Json → Option Fields
fields? (obj d) = some d
fields? _ = none

-- `value if isinstance(value, Mapping) else {}`
abbrev pub mapping : Json → Fields
mapping (obj d) = d
mapping _ = end

abbrev pub keys : Fields → List String
keys end = []
keys (field k v d) = k ∷ keys d

abbrev pub texts : List String → Items
texts [] = nil
texts (x ∷ xs) = cons (text x) (texts xs)

abbrev pub is_empty_dict : Fields → Bool
is_empty_dict end = true
is_empty_dict (field k v d) = false

-- `a or b`, of two dicts
abbrev pub or_dict : Fields → Fields → Fields
or_dict end e = e
or_dict (field k v d) e = field k v d

-- `{key: value, ...}`, of distinct keys
abbrev pub dict : List (String × Json) → Fields
dict [] = end
dict (entry ∷ entries) = field entry.0 entry.1 (dict entries)
