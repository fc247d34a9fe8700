-- ===== src/Tests/Retiring.antt =====
-- A listener whose secret is written, and that is retired.
use hermes_plugin_async_thre.Prelude.{String, [], false, refl, some, true, ◌==◌, ◌∷◌, ◌≡◌}
use hermes_plugin_async_thre.Adapter.Receive.{handle_event, validated}
use hermes_plugin_async_thre.Adapter.Seen.{LogOnly}
use hermes_plugin_async_thre.Adapter.State.{with_db}
use hermes_plugin_async_thre.Emitter.{sign_bytes}
use hermes_plugin_async_thre.Finalizers.Quiet.{retired_listener_delivers_nothing}
use hermes_plugin_async_thre.Finalizers.Retire.{
  Resources, all_key_chars, disable, failed_finalizer, first_safe_key, is_enabled, is_foreign,
  is_other_action, requested_action, retire_absent, retire_found, retire_listener, safe_thread_key,
  thread_key_from_context,
}
use hermes_plugin_async_thre.Finalizers.Retired.{
  failed_retirement_changes_nothing, retired_listener_is_off,
}
use hermes_plugin_async_thre.Privacy.{clip_output, redact_secret_text}
use hermes_plugin_async_thre.Python.Except.{ok}
use hermes_plugin_async_thre.Python.Json.{Fields, dict, obj, text}
use hermes_plugin_async_thre.Python.Text.{clip, keep_chars, lstrip, rstrip, strip, text_length}
use hermes_plugin_async_thre.Python.Values.{
  is_type_or_value_error, str_or_empty, to_int, to_str, truthy,
}
use hermes_plugin_async_thre.Registry.Cursor.{cursor_event_id, first_position}
use hermes_plugin_async_thre.Registry.Handles.{get_handle, set_enabled}
use hermes_plugin_async_thre.Secrets.Artifact.{
  remove_secret_artifact, safe_path_token, write_secret_artifact,
}
use hermes_plugin_async_thre.Secrets.Files.{
  empty_store, exists, is_file, read_text, remove_directory, unlink,
}
use hermes_plugin_async_thre.Secrets.Roundtrip.{
  remove-write_secret_artifact, signature_of_written_secret,
}
use hermes_plugin_async_thre.Security.{
  event_field, extract_envelope_fields, iso_zone, occurred_timestamp, parse_json_body,
  validate_timestamp, verify_hmac_signature,
}
use hermes_plugin_async_thre.Tests.AsciiRuntime.{ascii_runtime, sample_body, sample_event}
use hermes_plugin_async_thre.Tests.Fixtures.{
  config, gateway, idle_receiver, sample_fields, sample_handle, signed_request,
}
use hermes_plugin_async_thre.Tests.Values.{ab12-IsHexDigest}

-- "ath_1" and "other" have directories of their own
own_directory : (safe_path_token "ath_1" == "other") ≡ false
unfolding keep_chars safe_path_token
own_directory = refl

signature_of_written_secret_example :
    let written = write_secret_artifact sample_handle "http://x" "/r" empty_store in
    (key : String) × (signature : String) × (read_text written.0.directory "secret.txt" written.1
      ≡ some key)
    × (sign_bytes sample_body key ≡ ok signature)
    × (verify_hmac_signature sample_body "s3cret" signature ≡ ok true)
signature_of_written_secret_example =
    signature_of_written_secret ab12-IsHexDigest sample_handle "http://x" "/r" empty_store
      sample_body refl

remove-write_secret_artifact_example :
    let removal =
      remove_secret_artifact "ath_1"
        (write_secret_artifact sample_handle "http://x" "/r" empty_store).1 in
    (exists (safe_path_token "ath_1") "secret.txt" removal.1 ≡ false)
    × (exists (safe_path_token "ath_1") "contract.json" removal.1 ≡ false)
    × (removal.0 ≡ true)
    × (read_text "other" "secret.txt" removal.1 ≡ read_text "other" "secret.txt" empty_store)
remove-write_secret_artifact_example =
    remove-write_secret_artifact sample_handle "http://x" "/r" "other" "secret.txt" empty_store
      own_directory

-- a finalizer's context that names the listener
abbrev retire_context : Fields
retire_context = dict (
    ("resource", obj (dict (("handle", obj (dict (("threadKey", text " ath_1 ") ∷ []))) ∷ [])))
    ∷ ("finalizer", obj (dict (("action", text "ath.listener.retire") ∷ [])))
    ∷ [])

abbrev held : Resources
held = record { db = idle_receiver.db; files = empty_store }

is_held : get_handle (thread_key_from_context retire_context) held.db ≡ some sample_handle
unfolding all_key_chars first_safe_key get_handle lstrip rstrip safe_thread_key strip text_length
    thread_key_from_context
is_held = refl

-- the owner's own finalizer succeeds
retires : (retire_listener "u1" "t9" retire_context held).0.is_ok ≡ true
unfolding all_key_chars clip clip_output cursor_event_id disable exists failed_finalizer
    first_position first_safe_key get_handle is_file is_foreign is_other_action
    is_type_or_value_error keep_chars lstrip redact_secret_text remove_directory
    remove_secret_artifact requested_action retire_absent retire_found retire_listener rstrip
    safe_path_token safe_thread_key set_enabled str_or_empty strip text_length
    thread_key_from_context to_int to_str truthy unlink
retires = refl

retired_listener_is_off_example :
    let after = (retire_listener "u1" "t9" retire_context held).1 in
    let key = thread_key_from_context retire_context in
    (is_enabled (get_handle key after.db) ≡ false)
    × (exists (safe_path_token key) "secret.txt" after.files ≡ false)
    × (exists (safe_path_token key) "contract.json" after.files ≡ false)
retired_listener_is_off_example =
    retired_listener_is_off "u1" "t9" retire_context held sample_handle is_held retires

-- another owner's finalizer fails
refuses : (retire_listener "u2" "t9" retire_context held).0.is_ok ≡ false
unfolding all_key_chars clip clip_output cursor_event_id disable exists failed_finalizer
    first_position first_safe_key get_handle is_file is_foreign is_other_action
    is_type_or_value_error keep_chars lstrip redact_secret_text remove_directory
    remove_secret_artifact requested_action retire_absent retire_found retire_listener rstrip
    safe_path_token safe_thread_key set_enabled str_or_empty strip text_length
    thread_key_from_context to_int to_str truthy unlink
refuses = refl

failed_retirement_changes_nothing_example : (retire_listener "u2" "t9" retire_context held).1 ≡ held
failed_retirement_changes_nothing_example =
    failed_retirement_changes_nothing "u2" "t9" retire_context held refuses

valid : validated config gateway signed_request ≡ ok (sample_event, sample_fields)
unfolding clip event_field extract_envelope_fields iso_zone lstrip occurred_timestamp
    parse_json_body rstrip str_or_empty strip to_str truthy validate_timestamp validated
valid = refl

named : "ath_1" ≡ thread_key_from_context retire_context
unfolding all_key_chars first_safe_key lstrip rstrip safe_thread_key strip text_length
    thread_key_from_context
named = refl

retired_listener_delivers_nothing_example :
    let after = (retire_listener "u1" "t9" retire_context held).1 in
    LogOnly
      (with_db after.db idle_receiver)
      (handle_event config gateway signed_request (with_db after.db idle_receiver)).1
retired_listener_delivers_nothing_example =
    retired_listener_delivers_nothing config gateway "u1" "t9" retire_context empty_store
      sample_handle idle_receiver is_held retires signed_request sample_event sample_fields valid
      named
