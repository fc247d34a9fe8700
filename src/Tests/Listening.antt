-- ===== src/Tests/Listening.antt =====
-- A listener that is asked for and handed over.
use hermes_plugin_async_thre.Prelude.{Option, [], false, pos, refl, some, true, ◌==◌, ◌∷◌, ◌≡◌}
use hermes_plugin_async_thre.Adapter.Receive.{refuses_type}
use hermes_plugin_async_thre.Continuation.{
  ContinuationPolicy, add_toolsets, continuation_from_mapping, default_continuation_policy,
  normalize_toolsets, toolset_items, toolset_token,
}
use hermes_plugin_async_thre.Handoffs.Build.{build_producer_handoff}
use hermes_plugin_async_thre.Handoffs.Example.{handoff_example_is_accepted}
use hermes_plugin_async_thre.Handoffs.Modes.{
  HandoffArguments, HandoffStores, select_event_type, select_of,
}
use hermes_plugin_async_thre.Handoffs.Secrecy.{handoff_hides_secret, with_secret}
use hermes_plugin_async_thre.Handoffs.Texts.{minimal_event}
use hermes_plugin_async_thre.IngressDigest.Normalize.{
  canonical_fields, canonical_mapping, clean_meta, enabled_policy, explicit_disable, keyword,
  normalize_policy, read_fetch_default, read_mode, read_store_event,
}
use hermes_plugin_async_thre.IngressDigest.Resolve.{policy_override_mapping}
use hermes_plugin_async_thre.Lifecycle.{as_tuple, default_lifecycle_policy, lifecycle_from_mapping}
use hermes_plugin_async_thre.Listeners.Bounds.{IsWithin, normalize_listen_request-IsWithin}
use hermes_plugin_async_thre.Listeners.Create.{
  Fresh, ListenResult, create_listener, handle_arguments, resolved_owner, result_of, store_listener,
}
use hermes_plugin_async_thre.Listeners.Request.{
  ListenArguments, ListenRequest, as_object, continuation_of, effective_ack, effective_debounce,
  is_out_of_range, lifecycle_of, normalize_listen_request, normalized_policy, not_given,
  read_debounce, request_of, workflow_policy_from_request,
}
use hermes_plugin_async_thre.Listeners.Stored.{Agrees, create_listener-get_handle}
use hermes_plugin_async_thre.Privacy.{clip_output, fingerprint, redact_metadata, redact_secret_text}
use hermes_plugin_async_thre.Python.Except.{ok}
use hermes_plugin_async_thre.Python.Json.{Fields, dict, end, int, null, text}
use hermes_plugin_async_thre.Python.Text.{
  clean_token, clip, contains, has_prefix, is_token_char, keep_chars, lstrip, replace, rstrip,
  split, strip, text_length,
}
use hermes_plugin_async_thre.Python.Values.{
  bounded_int, chars_of, is_type_or_value_error, items_of, iterate, or_default, or_value,
  str_or_empty, stripped, to_int, to_str, truthy,
}
use hermes_plugin_async_thre.Registry.Handles.{create_handle, get_handle, new_handle, row_to_handle}
use hermes_plugin_async_thre.Registry.Rows.{Db, Handle}
use hermes_plugin_async_thre.Secrets.Files.{empty_store}
use hermes_plugin_async_thre.Security.{EnvelopeFields, extract_envelope_fields}
use hermes_plugin_async_thre.SourceFilters.{first_occurrences}
use hermes_plugin_async_thre.Tests.AsciiRuntime.{ascii_runtime}
use hermes_plugin_async_thre.Tests.Fixtures.{idle_receiver, sample_handle}
use hermes_plugin_async_thre.Workflow.Policy.{
  clean_gate_list, clean_gate_name, workflow_policy_from_mapping,
}

-- a hundred turns, of which five are allowed
abbrev generous : ContinuationPolicy
generous = record default_continuation_policy { max_turns = pos 100 }

-- a direct listener that asks for acknowledgements, a debounce and a hundred turns
abbrev arguments : ListenArguments
arguments = record {
  producer_id = "ci";
  allowed_event_types = "ci.run.finished" ∷ [];
  label = "";
  policy = "direct";
  ack_mode = "brief";
  debounce_seconds = int (pos 30);
  workflow_policy = not_given;
  continuation_policy = as_object generous;
  lifecycle_policy = as_object default_lifecycle_policy;
  ingress_digest_policy = null;
  gate_order = [];
  gate_mode = "";
  stale_on_artifact_change = [];
  candidate_required = [];
  owner_user_id = "u1";
}

abbrev request : ListenRequest
request = request_of arguments "direct" "brief" (pos 30) "serial" generous

normalizes : normalize_listen_request arguments ≡ ok request
unfolding add_toolsets as_tuple bounded_int chars_of clean_gate_list clean_gate_name clip
    continuation_from_mapping continuation_of effective_ack effective_debounce first_occurrences
    is_out_of_range is_type_or_value_error items_of iterate keep_chars lifecycle_from_mapping
    lifecycle_of lstrip normalize_listen_request normalize_toolsets normalized_policy or_default
    or_value read_debounce replace request_of rstrip split str_or_empty strip stripped to_int to_str
    toolset_items toolset_token truthy workflow_policy_from_mapping workflow_policy_from_request
normalizes = refl

normalize_listen_request-IsWithin_example : IsWithin request
normalize_listen_request-IsWithin_example = normalize_listen_request-IsWithin arguments normalizes

abbrev fresh : Fresh
fresh = record { thread_key = "ath_9"; secret = "fresh"; now = "t9" }

abbrev source : Fields
source = dict (("platform", text "discord") ∷ ("user_id", text "u7") ∷ [])

abbrev stored_row : Handle
stored_row = new_handle (handle_arguments request source "k" "s" "u1") end "ath_9" "fresh" "t9"

abbrev returned : Handle
returned = row_to_handle stored_row

reads_five : returned.continuation_policy.max_turns ≡ pos 5
unfolding row_to_handle new_handle handle_arguments request_of
reads_five = refl

abbrev made : Option ListenResult × Db
made = (
  some (record {
    handle = returned;
    event_url = "http://x";
    source = source;
    session_key = "k";
    session_id = "s";
  }),
  record idle_receiver.db { handles = sample_handle ∷ stored_row ∷ [] },
)

creates : create_listener arguments source "k" "s" "http://x" fresh idle_receiver.db ≡ ok made
unfolding add_toolsets as_tuple bounded_int canonical_fields canonical_mapping chars_of
    clean_gate_list clean_gate_name clean_meta clean_token clip clip_output contains
    continuation_from_mapping continuation_of create_handle create_listener effective_ack
    effective_debounce enabled_policy explicit_disable fingerprint first_occurrences get_handle
    handle_arguments has_prefix is_out_of_range is_token_char is_type_or_value_error items_of
    iterate keep_chars keyword lifecycle_from_mapping lifecycle_of lstrip new_handle
    normalize_listen_request normalize_policy normalize_toolsets normalized_policy or_default
    or_value policy_override_mapping read_debounce read_fetch_default read_mode read_store_event
    redact_metadata redact_secret_text replace request_of resolved_owner result_of rstrip split
    store_listener str_or_empty strip stripped text_length to_int to_str toolset_items toolset_token
    truthy workflow_policy_from_mapping workflow_policy_from_request
creates = refl

create_listener-get_handle_example :
    (r : ListenRequest) × (result : ListenResult) × (normalize_listen_request arguments ≡ ok r)
    × (made.0 ≡ some result)
    × (get_handle "ath_9" made.1 ≡ some result.handle)
    × Agrees r fresh result.handle
create_listener-get_handle_example =
    create_listener-get_handle arguments source "k" "s" "http://x" fresh idle_receiver.db creates

abbrev handoff_arguments : HandoffArguments
handoff_arguments = record {
  event_url = "http://x";
  secret_root = "/s";
  handoff_root = "/h";
  mode = "curl";
  event_type = "";
  create_files = true;
  include_sensitive_secret = false;
  helper_path = "/p";
  now = "t9";
}

abbrev stores : HandoffStores
stores = record { secrets = empty_store; handoffs = empty_store }

handoff_hides_secret_example :
    let other =
      build_producer_handoff (with_secret "guess" sample_handle) handoff_arguments stores in
    let own = build_producer_handoff sample_handle handoff_arguments stores in
    (other.0 ≡ own.0) × (other.1.handoffs ≡ own.1.handoffs)
handoff_hides_secret_example =
    handoff_hides_secret sample_handle handoff_arguments "guess" stores refl

typed : (select_event_type sample_handle "" == "") ≡ false
unfolding lstrip rstrip select_event_type select_of strip
typed = refl

short_key : clip 200 "ath_1" ≡ "ath_1"
unfolding clip
short_key = refl

short_producer : clip 200 "ci" ≡ "ci"
unfolding clip
short_producer = refl

short_type : clip 200 (select_event_type sample_handle "") ≡ select_event_type sample_handle ""
unfolding clip lstrip rstrip select_event_type select_of strip
short_type = refl

handoff_example_is_accepted_example :
    (fields : EnvelopeFields) × (extract_envelope_fields
        (minimal_event sample_handle "t9" (select_event_type sample_handle ""))
      ≡ ok fields)
    × (fields.thread_key ≡ "ath_1")
    × (fields.producer_id ≡ "ci")
    × (refuses_type sample_handle fields ≡ false)
handoff_example_is_accepted_example =
    handoff_example_is_accepted sample_handle "t9" "" refl refl typed short_key short_producer
      short_type
