-- ===== src/Python/Values.antt =====
-- Python's conversions of values that come from JSON: truth, `str`, `int`, iteration.
use hermes_plugin_async_thre.Prelude.{
  Bool, List, Option, String, [], false, if◌then◌else◌, map, max_ℤ, min_ℤ, none, not, pos, some,
  true, zero, ℤ, ◌==◌, ◌∷◌,
}
use hermes_plugin_async_thre.Python.Except.{
  Exc, Except, ok, overflow_error, raise, type_error, value_error, ◌>>=◌,
}
use hermes_plugin_async_thre.Python.Json.{
  Items, Json, arr, bool, cons, end, int, keys, nil, null, obj, real, text,
}
use hermes_plugin_async_thre.Python.Runtime.{Runtime}
use hermes_plugin_async_thre.Python.Text.{strip}

module _ ⦃py : Runtime⦄ where
  -- `bool(value)`
  unfoldable pub truthy : Json → Bool
  truthy null = false
  truthy (bool b) = b
  truthy (int (pos zero)) = false
  truthy (int i) = true
  truthy (real r) = not (py.real_is_zero r)
  truthy (text s) = not (s == "")
  truthy (arr nil) = false
  truthy (arr xs) = true
  truthy (obj end) = false
  truthy (obj d) = true

  -- `a or b`
  unfoldable pub or_value : Json → Json → Json
  unfolding truthy
  or_value a b = if truthy a then a else b

  -- `str(value)`
  unfoldable pub to_str : Json → String
  to_str null = "None"
  to_str (bool true) = "True"
  to_str (bool false) = "False"
  to_str (text s) = s
  to_str v = py.repr v

  -- `str(value or "")`
  unfoldable pub str_or_empty : Json → String
  unfolding truthy to_str
  str_or_empty v = if truthy v then to_str v else ""

  -- `int(value)`
  unfoldable pub to_int : Json → Except ℤ
  to_int (bool true) = ok (pos 1)
  to_int (bool false) = ok (pos 0)
  to_int (int i) = ok i
  to_int (real r) = py.int_of_real r
  to_int (text s) = elim (py.int_of_text s) [
    | none ↦ raise (value_error "invalid literal for int()")
    | some i ↦ ok i
  ]
  to_int _ = raise type_error

-- `except (TypeError, ValueError)`; the validation errors are subclasses of `ValueError`
unfoldable pub is_type_or_value_error : Exc → Bool
is_type_or_value_error overflow_error = false
is_type_or_value_error _ = true

-- `try: m except (TypeError, ValueError): d`
unfoldable pub or_default {ℓ} : {A : Type ℓ} → Except A → A → Except A
unfolding is_type_or_value_error
or_default (ok a) d = ok a
or_default (raise e) d = if is_type_or_value_error e then ok d else raise e

module _ ⦃py : Runtime⦄ where
  -- `_bounded_int` of continuation.py and of ingress_digest.py
  unfoldable pub bounded_int : Json → ℤ → ℤ → ℤ → Except ℤ
  unfolding to_int or_default
  bounded_int value default minimum maximum = do
    parsed ← or_default (to_int value) default
    ok (max_ℤ minimum (min_ℤ parsed maximum))

  -- the values that a `for` over an iterable gives; `none` where the value is not iterable
  unfoldable pub items_of : Items → List Json
  items_of nil = []
  items_of (cons x xs) = x ∷ items_of xs

  unfoldable pub chars_of : String → List Json
  chars_of String.[] = []
  chars_of (String.◌∷◌ c s) = text (String.◌∷◌ c "") ∷ chars_of s

  unfoldable pub iterate : Json → Option (List Json)
  unfolding items_of chars_of
  iterate (arr xs) = some (items_of xs)
  iterate (obj d) = some (map text (keys d))
  iterate (text s) = some (chars_of s)
  iterate _ = none

  -- `[str(item).strip() for item in items if str(item).strip()]`
  unfoldable pub stripped : List String → List String
  unfolding strip
  stripped [] = []
  stripped (x ∷ xs) =
      let rest = stripped xs in let s = strip x in if s == "" then rest else s ∷ rest
