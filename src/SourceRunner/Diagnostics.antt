-- ===== src/SourceRunner/Diagnostics.antt =====
-- `_emit_failure_diagnostic`: what the outbox keeps of a failed emission.
use Prim.Native.Char.{Char, code}
use hermes_plugin_async_thre.Prelude.{
  Bool, String, if◌then◌else◌, leb, ltb, nat_eq, none, pos, some, ◌&&◌, ◌<>◌, ◌==◌, ◌||◌,
}
use hermes_plugin_async_thre.Emitter.{EmitResult}
use hermes_plugin_async_thre.Privacy.{redact_metadata, redacted_mark}
use hermes_plugin_async_thre.Python.Json.{int}
use hermes_plugin_async_thre.Python.Runtime.{Runtime}
use hermes_plugin_async_thre.Python.Text.{contains, has_prefix, strip, text_length}
use hermes_plugin_async_thre.Python.Values.{to_str}

module _ ⦃py : Runtime⦄ where
  -- the characters of `_safe_diagnostic_fragment`
  abbrev is_fragment_char : Char → Bool
  is_fragment_char c = py.is_alnum c || nat_eq (code c) b'_' || nat_eq (code c) b'-'

  unfoldable pub fragment_chars : String → String
  fragment_chars String.[] = ""
  fragment_chars (String.◌∷◌ c s) =
      (if is_fragment_char c then String.◌∷◌ c "" else "_") <> fragment_chars s

  -- `s.strip("_-")`
  abbrev is_edge : Char → Bool
  is_edge c = nat_eq (code c) b'_' || nat_eq (code c) b'-'

  unfoldable pub lstrip_edges : String → String
  lstrip_edges String.[] = ""
  lstrip_edges (String.◌∷◌ c s) =
      let rest = lstrip_edges s in if is_edge c then rest else String.◌∷◌ c s

  unfoldable pub rstrip_edges : String → String
  rstrip_edges String.[] = ""
  rstrip_edges (String.◌∷◌ c s) =
      let rest = rstrip_edges s in if rest == "" && is_edge c then "" else String.◌∷◌ c rest

  -- `_safe_diagnostic_fragment`
  unfoldable pub safe_diagnostic_fragment : String → String
  unfolding fragment_chars lstrip_edges rstrip_edges
  safe_diagnostic_fragment value =
      let shown = py.lower (strip (redact_metadata 64 value)) in
      let normalized = rstrip_edges (lstrip_edges (fragment_chars shown)) in
      if shown == ""
        || has_prefix "redacted:" shown
        || contains redacted_mark shown
        || ltb 32 (text_length shown)
      then ""
      else if leb (text_length normalized) 32
      then normalized
      else ""

  -- `_emit_failure_diagnostic`
  unfoldable pub emit_failure_diagnostic : EmitResult → String
  unfolding safe_diagnostic_fragment
  emit_failure_diagnostic r =
      let http : String = elim r.http_status [
        | none ↦ "transport_error"
        | some n ↦ "http_" <> to_str (int (pos n))
      ] in
      let status = safe_diagnostic_fragment r.receiver_status in
      if status == "" || status == "transport_error"
      then "emit_failed:" <> http
      else "emit_failed:" <> http <> ":" <> status
