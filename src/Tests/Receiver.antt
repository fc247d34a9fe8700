-- ===== src/Tests/Receiver.antt =====
-- The theorems on the receiver, for one listener and the sample event.
use hermes_plugin_async_thre.Prelude.{false, refl, some, true, ◌≡◌}
use hermes_plugin_async_thre.Adapter.Ack.{
  ack_notice_text, safe_ack_token, send_ack_notice, short_ack_id,
}
use hermes_plugin_async_thre.Adapter.Authentic.{IsAuthentic, unauthentic_changes_nothing}
use hermes_plugin_async_thre.Adapter.Buckets.{
  forget_all, give_back, pending_contains, pop_coalesced, requeue_failed, reschedule, start_timer,
}
use hermes_plugin_async_thre.Adapter.Coalesce.{
  binding_of_event, flush_bucket, flush_coalesced, ingress_policy, queue_coalesced,
  record_workflow_state, resolve_ingress_payload, settle_flush, store_payload,
}
use hermes_plugin_async_thre.Adapter.Digest.{coalesced_data, coalesced_fields}
use hermes_plugin_async_thre.Adapter.Dispatch.{
  continue_session, dispatch_event, hand_over, ingress_detail, note_session_key, raw_message,
  safe_session_key_hash, send_direct,
}
use hermes_plugin_async_thre.Adapter.Events.{
  is_priority_event, is_routine_event, should_coalesce, tail_mode_from_event,
}
use hermes_plugin_async_thre.Adapter.Receive.{
  accepted, apply_lifecycle, authenticated, dispatch_now, handle_event, reply_to_exception,
  seen_before, settle, validated,
}
use hermes_plugin_async_thre.Adapter.Retry.{retry_delivers_nothing}
use hermes_plugin_async_thre.Adapter.Seen.{LogOnly, seen_event_is_only_logged}
use hermes_plugin_async_thre.Adapter.State.{succeeds}
use hermes_plugin_async_thre.Continuation.{continuation_summary}
use hermes_plugin_async_thre.IngressDigest.Normalize.{
  canonical_mapping, clean_meta, enabled_policy, explicit_disable, keyword, normalize_policy,
  read_fetch_default, read_mode, read_store_event,
}
use hermes_plugin_async_thre.IngressDigest.Payload.{
  bound_json_mapping, bound_raw, bound_raw_fields, bound_raw_items, bounded_event_payload,
  build_pointer_id, local_digest,
}
use hermes_plugin_async_thre.IngressDigest.Resolve.{add_layer, resolve_ingress_digest_policy}
use hermes_plugin_async_thre.Lifecycle.{
  is_terminal_event, lifecycle_summary, matches_event_pattern, stage_in, terminal_action,
  terminal_stage_value,
}
use hermes_plugin_async_thre.Privacy.{
  clip_output, fingerprint, redact_metadata, redact_metadata_text, redact_secret_text,
  safe_event_id, sanitize, sanitize_fields, sanitize_items, sanitize_untrusted_value,
}
use hermes_plugin_async_thre.Python.Except.{ok}
use hermes_plugin_async_thre.Python.Text.{
  clip, contains, drop_chars, has_prefix, is_ascii, is_token_char, keep_chars, lstrip, replace,
  rstrip, strip, text_length,
}
use hermes_plugin_async_thre.Python.Values.{
  bounded_int, is_type_or_value_error, or_default, or_value, str_or_empty, to_int, to_str, truthy,
}
use hermes_plugin_async_thre.Registry.Bindings.{active_binding, find_source_binding_for_event}
use hermes_plugin_async_thre.Registry.EventLog.{keeps_detail_key, log_event, sanitize_event_detail}
use hermes_plugin_async_thre.Registry.Handles.{get_handle, set_enabled}
use hermes_plugin_async_thre.Registry.Payloads.{is_payload_of, new_payload, store_event_payload}
use hermes_plugin_async_thre.Registry.Seen.{forget_seen, has_seen, mark_seen}
use hermes_plugin_async_thre.Registry.Workflows.{
  get_workflow_state, put_workflow_state, update_workflow_state_from_event,
}
use hermes_plugin_async_thre.Security.{
  bare_digest, compare_digest, event_field, extract_envelope_fields, iso_zone, occurred_timestamp,
  parse_json_body, signature_header, validate_timestamp, verify_hmac_signature,
}
use hermes_plugin_async_thre.Security.Signature.{verify_hmac_signature_iff}
use hermes_plugin_async_thre.SourceFilters.{first_occurrences}
use hermes_plugin_async_thre.Tests.AsciiRuntime.{ascii_runtime, sample_body, sample_event}
use hermes_plugin_async_thre.Tests.Fixtures.{
  config, gateway, idle_receiver, offline, receiver, sample_fields, sample_handle, seen_db,
  signed_request, unsigned_request,
}
use hermes_plugin_async_thre.Workflow.Event.{
  artifact_from_refs, clean_evidence, clean_object, fingerprint_json, first_string, normalize_stage,
  normalize_workflow_event,
}
use hermes_plugin_async_thre.Workflow.Gates.{
  add_row, candidate_ready, compute_gates, gate_loop, gate_row, gate_set, gate_state, gate_status,
  insert_sorted, later_deferred, later_row, sort_texts,
}
use hermes_plugin_async_thre.Workflow.Policy.{clean_gate_name}
use hermes_plugin_async_thre.Workflow.Transition.{
  apply_workflow_transition, artifact_changed, evidence_map, has_passed, incoming_entry,
  keeps_artifact, kept_evidence, mark_stale_evidence, next_evidence, next_stage, preserves_previous,
  stale_item, staled_incoming, stales_on_artifact_change,
}

no_signature : signature_header unsigned_request.headers ≡ ""
unfolding lstrip rstrip signature_header strip
no_signature = refl

unsigned-is_not_authentic : ¬ (IsAuthentic config gateway unsigned_request idle_receiver)
unsigned-is_not_authentic a =
    let rejected_text =
      ((verify_hmac_signature_iff sample_body a.handle.secret
          (signature_header unsigned_request.headers)).0
        a.is_signed).1 in
    let bad : true ≡ false = rw no_signature at rejected_text in cc

unauthentic_changes_nothing_example :
    (handle_event config gateway unsigned_request idle_receiver).1 ≡ idle_receiver
unauthentic_changes_nothing_example =
    unauthentic_changes_nothing config gateway unsigned_request idle_receiver
      unsigned-is_not_authentic

signed-is_valid : validated config gateway signed_request ≡ ok (sample_event, sample_fields)
unfolding clip event_field extract_envelope_fields iso_zone lstrip occurred_timestamp
    parse_json_body rstrip str_or_empty strip to_str truthy validate_timestamp validated
signed-is_valid = refl

signed-is_signed :
    verify_hmac_signature sample_body "s3cret" (signature_header signed_request.headers) ≡ ok true
unfolding bare_digest compare_digest drop_chars has_prefix is_ascii lstrip rstrip signature_header
    strip verify_hmac_signature
signed-is_signed = refl

idle-is_known : get_handle "ath_1" idle_receiver.db ≡ some sample_handle
unfolding get_handle
idle-is_known = refl

seen-is_known : get_handle "ath_1" seen_db ≡ some sample_handle
unfolding get_handle
seen-is_known = refl

abbrev idle_authentic : IsAuthentic config gateway signed_request idle_receiver
idle_authentic = record {
  body = sample_event;
  fields = sample_fields;
  handle = sample_handle;
  is_valid = signed-is_valid;
  is_known = idle-is_known;
  is_signed = signed-is_signed;
}

abbrev seen_authentic : IsAuthentic config gateway signed_request (receiver seen_db)
seen_authentic = record {
  body = sample_event;
  fields = sample_fields;
  handle = sample_handle;
  is_valid = signed-is_valid;
  is_known = seen-is_known;
  is_signed = signed-is_signed;
}

already_seen : has_seen "ci" "run:1" seen_db ≡ true
unfolding has_seen
already_seen = refl

seen_event_is_only_logged_example :
    LogOnly (receiver seen_db) (handle_event config gateway signed_request (receiver seen_db)).1
seen_event_is_only_logged_example =
    seen_event_is_only_logged config gateway signed_request (receiver seen_db) seen_authentic
      already_seen

-- the event is sent on
delivered-ok : succeeds (handle_event config gateway signed_request idle_receiver).0 ≡ true
unfolding accepted ack_notice_text active_binding add_layer add_row apply_lifecycle
    apply_workflow_transition artifact_changed artifact_from_refs authenticated bare_digest
    binding_of_event bound_json_mapping bound_raw bound_raw_fields bound_raw_items
    bounded_event_payload bounded_int build_pointer_id candidate_ready canonical_mapping
    clean_evidence clean_gate_name clean_meta clean_object clip clip_output coalesced_data
    coalesced_fields compare_digest compute_gates contains continuation_summary continue_session
    dispatch_event dispatch_now drop_chars enabled_policy event_field evidence_map explicit_disable
    extract_envelope_fields find_source_binding_for_event fingerprint fingerprint_json
    first_occurrences first_string flush_bucket flush_coalesced forget_all forget_seen gate_loop
    gate_row gate_set gate_state gate_status get_handle get_workflow_state give_back hand_over
    handle_event has_passed has_prefix has_seen incoming_entry ingress_detail ingress_policy
    insert_sorted is_ascii is_payload_of is_priority_event is_routine_event is_terminal_event
    is_token_char is_type_or_value_error iso_zone keep_chars keeps_artifact keeps_detail_key
    kept_evidence keyword later_deferred later_row lifecycle_summary local_digest log_event lstrip
    mark_seen mark_stale_evidence matches_event_pattern new_payload next_evidence next_stage
    normalize_policy normalize_stage normalize_workflow_event note_session_key occurred_timestamp
    or_default or_value parse_json_body pending_contains pop_coalesced preserves_previous
    put_workflow_state queue_coalesced raw_message read_fetch_default read_mode read_store_event
    record_workflow_state redact_metadata redact_metadata_text redact_secret_text replace
    reply_to_exception requeue_failed reschedule resolve_ingress_digest_policy
    resolve_ingress_payload rstrip safe_ack_token safe_event_id safe_session_key_hash sanitize
    sanitize_event_detail sanitize_fields sanitize_items sanitize_untrusted_value seen_before
    send_ack_notice send_direct set_enabled settle settle_flush short_ack_id should_coalesce
    signature_header sort_texts stage_in stale_item staled_incoming stales_on_artifact_change
    start_timer store_event_payload store_payload str_or_empty strip succeeds tail_mode_from_event
    terminal_action terminal_stage_value text_length to_int to_str truthy
    update_workflow_state_from_event validate_timestamp validated verify_hmac_signature
delivered-ok = refl

retry_delivers_nothing_example :
    LogOnly
      (handle_event config gateway signed_request idle_receiver).1
      (handle_event config offline signed_request
        (handle_event config gateway signed_request idle_receiver).1).1
retry_delivers_nothing_example =
    retry_delivers_nothing config gateway offline signed_request idle_receiver idle_authentic refl
      delivered-ok
