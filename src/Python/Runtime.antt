-- ===== src/Python/Runtime.antt =====
-- What the program takes from Python's run time and from libraries that it does not contain, as one
-- record of functions that every module takes as an instance argument.
use Prim.Native.Char.{Char}
use hermes_plugin_async_thre.Prelude.{Bool, List, Option, String, ℕ, ℤ}
use hermes_plugin_async_thre.Python.Except.{Except}
use hermes_plugin_async_thre.Python.Json.{Json}

pub record Runtime : Type 0 where
  -- the Unicode tables behind `str.strip`, `str.isalnum` and `str.lower`
  pub is_space : Char → Bool
  pub is_alnum : Char → Bool
  pub lower : String → String
  -- `str(v)` of an int, a float, a list or a dict, and `repr(v)` of a text
  pub repr : Json → String
  -- `int(text)`, which may raise `ValueError`
  pub int_of_text : String → Option ℤ
  -- `int(float)`, which may raise `ValueError` or `OverflowError`
  pub int_of_real : String → Except ℤ
  -- whether a float, by its `repr`, equals zero
  pub real_is_zero : String → Bool
  -- `float(int)`, which may raise `OverflowError`; `float(text)` and `datetime.fromisoformat(text)` as a UTC timestamp, by its `repr`
  pub real_of_int : ℤ → Option String
  pub real_of_text : String → Option String
  pub timestamp_of_iso : String → Option String
  pub is_finite : String → Bool
  -- `round(float, 6)`
  pub round_six : String → String
  -- `abs(now - ts) > window`
  pub outside_window : String → String → ℤ → Bool
  -- `json.loads(raw.decode("utf-8"))` with non-standard constants refused
  pub json_loads : List ℕ → Option Json
  -- `json.dumps(value, sort_keys=True, separators=(",", ":"), ensure_ascii=False, default=str)`
  pub json_dumps : Json → String
  -- `json.dumps(value, ensure_ascii=False, sort_keys=True)`
  pub json_dumps_spaced : Json → String
  -- `json.dumps(value, indent=2, sort_keys=True)`
  pub json_dumps_indented : Json → String
  pub hmac_hex : String → List ℕ → String
  pub sha256_hex : String → String
  -- the regular expressions of privacy.py: the substitutions of `_SECRET_PATTERNS`, and the searches
  -- for `_SENSITIVE_WORD_RE` and `_UNSAFE_KEY_RE`
  pub sub_secrets : String → String
  pub has_sensitive_word : String → Bool
  pub is_unsafe_key : String → Bool
  -- `datetime.fromtimestamp(max(0, seconds), tz=utc)` to the second, in the format with a final `Z`
  pub iso_of_epoch : ℤ → String
  -- `fnmatch.fnmatchcase`
  pub fnmatch : String → String → Bool
