-- ===== src/Tests/Lost.antt =====
-- An event under a receiver's setting whose digest limit is infinite.
use hermes_plugin_async_thre.Prelude.{false, none, refl, some, true, ◌≡◌}
use hermes_plugin_async_thre.Adapter.Authentic.{IsAuthentic}
use hermes_plugin_async_thre.Adapter.Coalesce.{
  binding_of_event, ingress_policy, resolve_ingress_payload, store_payload,
}
use hermes_plugin_async_thre.Adapter.Lost.{unresolved_event_is_lost}
use hermes_plugin_async_thre.Adapter.Receive.{
  handle_event, refuses_type, reply_to_exception, validated,
}
use hermes_plugin_async_thre.Adapter.Seen.{LogOnly}
use hermes_plugin_async_thre.Adapter.State.{Config, with_db}
use hermes_plugin_async_thre.IngressDigest.Normalize.{
  canonical_fields, canonical_mapping, clean_meta, enabled_policy, explicit_disable, keyword,
  normalize_policy, read_fetch_default, read_mode, read_store_event,
}
use hermes_plugin_async_thre.IngressDigest.Payload.{
  bound_json_mapping, bound_raw, bound_raw_fields, bound_raw_items, bounded_event_payload,
  build_pointer_id, local_digest,
}
use hermes_plugin_async_thre.IngressDigest.Resolve.{add_layer, resolve_ingress_digest_policy}
use hermes_plugin_async_thre.Privacy.{
  clip_output, fingerprint, redact_metadata, redact_metadata_text, redact_secret_text,
  safe_event_id, sanitize, sanitize_fields, sanitize_items, sanitize_untrusted_value,
}
use hermes_plugin_async_thre.Python.Except.{ok, overflow_error, raise}
use hermes_plugin_async_thre.Python.Json.{bool, end, field, obj, real}
use hermes_plugin_async_thre.Python.Text.{
  clip, contains, drop_chars, has_prefix, is_ascii, lstrip, replace, rstrip, strip, text_length,
}
use hermes_plugin_async_thre.Python.Values.{
  bounded_int, is_type_or_value_error, or_default, or_value, str_or_empty, to_int, to_str, truthy,
}
use hermes_plugin_async_thre.Registry.Bindings.{active_binding, find_source_binding_for_event}
use hermes_plugin_async_thre.Registry.Handles.{get_handle}
use hermes_plugin_async_thre.Registry.Payloads.{is_payload_of, new_payload, store_event_payload}
use hermes_plugin_async_thre.Registry.Rows.{Db}
use hermes_plugin_async_thre.Registry.Seen.{has_seen, mark_seen}
use hermes_plugin_async_thre.Security.{
  bare_digest, compare_digest, event_field, extract_envelope_fields, iso_zone, occurred_timestamp,
  parse_json_body, signature_header, validate_timestamp, verify_hmac_signature,
}
use hermes_plugin_async_thre.Tests.AsciiRuntime.{ascii_runtime, sample_body, sample_event}
use hermes_plugin_async_thre.Tests.Fixtures.{
  config, gateway, idle_receiver, offline, sample_fields, sample_handle, signed_request,
}

abbrev infinite_config : Config
infinite_config = record config {
  ingress_digest = obj (field "enabled" (bool true) (field "max_input_chars" (real "inf") end));
}

valid : validated infinite_config gateway signed_request ≡ ok (sample_event, sample_fields)
unfolding clip event_field extract_envelope_fields iso_zone lstrip occurred_timestamp
    parse_json_body rstrip str_or_empty strip to_str truthy validate_timestamp validated
valid = refl

known : get_handle "ath_1" idle_receiver.db ≡ some sample_handle
unfolding get_handle
known = refl

signed :
    verify_hmac_signature sample_body "s3cret" (signature_header signed_request.headers) ≡ ok true
unfolding bare_digest compare_digest drop_chars has_prefix is_ascii lstrip rstrip signature_header
    strip verify_hmac_signature
signed = refl

abbrev authentic : IsAuthentic infinite_config gateway signed_request idle_receiver
authentic = record {
  body = sample_event;
  fields = sample_fields;
  handle = sample_handle;
  is_valid = valid;
  is_known = known;
  is_signed = signed;
}

abbrev marked_db : Db
marked_db = (mark_seen "ci" "run:1" "ath_1" "t1" idle_receiver.db).1

listed : refuses_type sample_handle sample_fields ≡ false
listed = refl

fresh : has_seen "ci" "run:1" idle_receiver.db ≡ false
unfolding has_seen
fresh = refl

unresolved :
    resolve_ingress_payload infinite_config gateway sample_handle sample_event sample_fields none
      marked_db
    ≡ raise overflow_error
unfolding active_binding add_layer binding_of_event bound_json_mapping bound_raw bound_raw_fields
    bound_raw_items bounded_event_payload bounded_int build_pointer_id canonical_fields
    canonical_mapping clean_meta clip clip_output contains enabled_policy explicit_disable
    find_source_binding_for_event fingerprint has_prefix has_seen ingress_policy is_payload_of
    is_type_or_value_error keyword local_digest lstrip mark_seen new_payload normalize_policy
    or_default or_value read_fetch_default read_mode read_store_event redact_metadata
    redact_metadata_text redact_secret_text replace resolve_ingress_digest_policy
    resolve_ingress_payload rstrip safe_event_id sanitize sanitize_fields sanitize_items
    sanitize_untrusted_value store_event_payload store_payload strip text_length to_int to_str
    truthy
unresolved = refl

unresolved_event_is_lost_example :
    (handle_event infinite_config gateway signed_request idle_receiver
      ≡ (reply_to_exception overflow_error, with_db marked_db idle_receiver))
    × LogOnly
        (with_db marked_db idle_receiver)
        (handle_event infinite_config offline signed_request (with_db marked_db idle_receiver)).1
unresolved_event_is_lost_example =
    unresolved_event_is_lost infinite_config gateway offline signed_request idle_receiver
      overflow_error authentic refl refl listed fresh unresolved
