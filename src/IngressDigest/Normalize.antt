-- ===== src/IngressDigest/Normalize.antt =====
-- How a mapping is read as a policy: async_threads/ingress_digest.py, `normalize_ingress_digest_policy`.
use hermes_plugin_async_thre.Prelude.{
  Bool, String, if◌then◌else◌, is_some, not, pos, true, ◌&&◌, ◌==◌, ◌||◌,
}
use hermes_plugin_async_thre.IngressDigest.Policy.{
  FetchDefault, IngressDigestPolicy, Mode, StoreEvent, disabled_policy, fetch_raw_local,
  fetch_redacted, inline_summary, is_off, is_pointer, is_raw_local, mode_text, none_stored, off,
  pointer, pointer_summary, raw_local, raw_retention, redacted, redacted_retention,
  store_event_text, stores,
}
use hermes_plugin_async_thre.Privacy.{redact_metadata}
use hermes_plugin_async_thre.Python.Except.{Except, ok, ◌>>=◌}
use hermes_plugin_async_thre.Python.Json.{
  Fields, Json, end, field, find, get, is_empty_dict, obj, put, text,
}
use hermes_plugin_async_thre.Python.Runtime.{Runtime}
use hermes_plugin_async_thre.Python.Text.{replace, strip}
use hermes_plugin_async_thre.Python.Values.{bounded_int, or_value, to_str, truthy}

abbrev pub canonical_key : String → String
canonical_key k =
    if k == "maxInputChars"
    then "max_input_chars"
    else if k == "maxOutputTokens"
    then "max_output_tokens"
    else if k == "storeEvent"
    then "store_event"
    else if k == "fetchDefault"
    then "fetch_default"
    else if k == "retentionSeconds"
    then "retention_seconds"
    else k

unfoldable pub canonical_fields : Fields → Fields → Fields
canonical_fields out end = out
canonical_fields out (field k v d) = canonical_fields (put (canonical_key k) v out) d

-- `_canonical_mapping(value)`
unfoldable pub canonical_mapping : Json → Fields
unfolding canonical_fields
canonical_mapping (obj d) = canonical_fields end d
canonical_mapping _ = end

module _ ⦃py : Runtime⦄ where
  -- `str(value or default).strip().lower().replace("-", "_")`
  unfoldable pub keyword : Json → String → String
  unfolding strip replace or_value to_str
  keyword value default =
      replace "-" "_" (py.lower (strip (to_str (or_value value (text default)))))

  unfoldable pub explicit_disable : Fields → Bool
  unfolding truthy keyword
  explicit_disable raw =
      is_some (find "enabled" raw) && not (truthy (get "enabled" raw))
      || keyword (get "mode" raw) "" == "off"

  unfoldable pub read_mode : Json → Mode → Mode
  unfolding keyword
  read_mode value default =
      let k = keyword value (mode_text default) in
      if k == "off"
      then off
      else if k == "pointer"
      then pointer
      else if k == "pointer_summary"
      then pointer_summary
      else if k == "inline_summary"
      then inline_summary
      else default

  unfoldable pub read_store_event : Json → StoreEvent → StoreEvent
  unfolding keyword
  read_store_event value default =
      let k = keyword value (store_event_text default) in
      if k == "none"
      then none_stored
      else if k == "redacted"
      then redacted
      else if k == "raw_local"
      then raw_local
      else default

  unfoldable pub read_fetch_default : Json → FetchDefault
  unfolding keyword
  read_fetch_default value =
      if keyword value "redacted" == "raw_local" then fetch_raw_local else fetch_redacted

  unfoldable pub clean_meta : Json → String → String
  unfolding redact_metadata or_value to_str
  clean_meta value default =
      let cleaned = redact_metadata 100 (to_str (or_value value (text default))) in
      if cleaned == "" then default else cleaned

  -- the policy of an enabled mapping, under its mode
  unfoldable pub enabled_policy : Fields → Mode → String → Except IngressDigestPolicy
  unfolding read_store_event read_fetch_default clean_meta bounded_int
  enabled_policy raw mode source =
      let given =
        read_store_event (get "store_event" raw)
          (if is_pointer mode then redacted else none_stored) in
      let store_event = if is_pointer mode && not (stores given) then redacted else given in
      let fetch =
        if is_raw_local store_event
        then read_fetch_default (get "fetch_default" raw)
        else fetch_redacted in
      do
        max_input_chars ←
            bounded_int (get "max_input_chars" raw) (pos 12000) (pos 1000) (pos 100000)
        max_output_tokens ← bounded_int (get "max_output_tokens" raw) (pos 256) (pos 32) (pos 2048)
        retention_seconds ←
            bounded_int (get "retention_seconds" raw)
              (if is_raw_local store_event then raw_retention else redacted_retention) (pos 60)
              (pos 2592000)
        ok (record {
          enabled = true;
          mode = mode;
          provider = clean_meta (get "provider" raw) "auto";
          model = clean_meta (get "model" raw) "auto";
          max_input_chars = max_input_chars;
          max_output_tokens = max_output_tokens;
          store_event = store_event;
          fetch_default = fetch;
          retention_seconds = retention_seconds;
          source = source;
        })

  -- `normalize_ingress_digest_policy`, of a canonical mapping
  unfoldable pub normalize_policy : Fields → String → Except IngressDigestPolicy
  unfolding explicit_disable read_mode enabled_policy truthy
  normalize_policy raw source =
      let enabled = truthy (get "enabled" raw) in
      let mode = read_mode (get "mode" raw) (if enabled then pointer_summary else off) in
      if explicit_disable raw
      then ok (disabled_policy source)
      else if is_empty_dict raw
      then ok (disabled_policy "off")
      else if not enabled || is_off mode
      then ok (disabled_policy source)
      else enabled_policy raw mode source
