-- ===== src/Privacy.antt =====
-- async_threads/privacy.py: redaction of texts and values that a producer controls. The regular
-- expressions themselves are the functions `sub_secrets`, `has_sensitive_word` and `is_unsafe_key` of
-- the run time; bounds, order of the passes, fallbacks and the walk over values are the program's.
pub mod Depth
use hermes_plugin_async_thre.Prelude.{
  String, if◌then◌else◌, ltb, not, suc, zero, ℕ, ◌&&◌, ◌+◌, ◌<>◌, ◌==◌, ◌||◌,
}
use hermes_plugin_async_thre.Python.Json.{
  Fields, Items, Json, arr, bool, cons, end, field, int, nil, null, obj, put, real, text,
}
use hermes_plugin_async_thre.Python.Runtime.{Runtime}
use hermes_plugin_async_thre.Python.Text.{clip, contains, text_length}

abbrev pub redacted_mark : String
redacted_mark = "<redacted>"

module _ ⦃py : Runtime⦄ where
  -- the cut at the end of `redact_secret_text`, where `max_output_chars` is not `None`
  unfoldable pub clip_output : ℕ → String → String
  unfolding clip text_length
  clip_output n s = if ltb n (text_length s) then clip n s <> "\n...<truncated>" else s

  -- `redact_secret_text(value, max_input_chars=..., max_output_chars=...)` of `str(value or "")`
  unfoldable pub redact_secret_text : String → ℕ → ℕ → String
  unfolding clip clip_output
  redact_secret_text value max_input max_output =
      clip_output max_output (py.sub_secrets (clip max_input value))

  -- the fingerprint that stands for a text that cannot be shown
  unfoldable pub fingerprint : String → String
  unfolding clip
  fingerprint raw = "redacted:" <> clip 12 (py.sha256_hex raw)

  unfoldable pub redact_metadata : ℕ → String → String
  unfolding redact_secret_text fingerprint contains
  redact_metadata max_chars raw =
      let redacted = redact_secret_text raw max_chars max_chars in
      if not (contains redacted_mark redacted) && py.has_sensitive_word raw
      then fingerprint raw
      else redacted

  -- `redact_metadata_text(value)`
  unfoldable pub redact_metadata_text : String → String
  unfolding redact_metadata
  redact_metadata_text raw = redact_metadata 200 raw

  unfoldable pub safe_event_id : String → String
  unfolding redact_metadata fingerprint contains clip
  safe_event_id raw =
      let redacted = redact_metadata 200 raw in
      if raw == ""
      then ""
      else if contains redacted_mark redacted || py.has_sensitive_word raw
      then fingerprint raw
      else clip 200 redacted

  -- The walk over a value. `room` is how many entries of a container are still taken (`[:100]`), and
  -- a dict is filled key by key, so that two keys that read alike after redaction share one entry.
  unfoldable mutual
    unfolding redact_secret_text

    pub sanitize : ℕ → Json → Json
    sanitize depth (arr xs) =
        let items = sanitize_items (depth + 1) 100 xs in
        if ltb 8 depth then text "<max-depth>" else arr items
    sanitize depth (obj d) =
        let cleaned = sanitize_fields (depth + 1) 100 d end in
        if ltb 8 depth then text "<max-depth>" else obj cleaned
    sanitize depth (text s) =
        if ltb 8 depth then text "<max-depth>" else text (redact_secret_text s 4000 4000)
    sanitize depth null = if ltb 8 depth then text "<max-depth>" else null
    sanitize depth (bool b) = if ltb 8 depth then text "<max-depth>" else bool b
    sanitize depth (int i) = if ltb 8 depth then text "<max-depth>" else int i
    sanitize depth (real r) = if ltb 8 depth then text "<max-depth>" else real r

    pub sanitize_items : ℕ → ℕ → Items → Items
    sanitize_items depth room nil = nil
    sanitize_items depth zero (cons x xs) = nil
    sanitize_items depth (suc room) (cons x xs) =
        cons (sanitize depth x) (sanitize_items depth room xs)

    pub sanitize_fields : ℕ → ℕ → Fields → Fields → Fields
    sanitize_fields depth room end cleaned = cleaned
    sanitize_fields depth zero (field k v d) cleaned = cleaned
    sanitize_fields depth (suc room) (field k v d) cleaned =
        let item = sanitize depth v in
        sanitize_fields depth room d (
          put (redact_secret_text k 4000 200)
            (if py.is_unsafe_key k then text redacted_mark else item) cleaned)

  -- `sanitize_untrusted_value(value)`
  unfoldable pub sanitize_untrusted_value : Json → Json
  unfolding sanitize
  sanitize_untrusted_value v = sanitize 0 v
