-- ===== src/Tests/Failures.antt =====
-- A dispatch and a flush that fail.
use hermes_plugin_async_thre.Prelude.{String, [], false, none, not, refl, ◌&&◌, ◌==◌, ◌∷◌, ◌≡◌}
use hermes_plugin_async_thre.Adapter.Ack.{
  ack_notice_text, safe_ack_token, send_ack_notice, short_ack_id,
}
use hermes_plugin_async_thre.Adapter.Coalesce.{settle_flush}
use hermes_plugin_async_thre.Adapter.Dispatch.{
  continue_session, dispatch_error, dispatch_event, hand_over, ingress_detail, note_session_key,
  raw_message, safe_session_key_hash, send_direct,
}
use hermes_plugin_async_thre.Adapter.Failure.{
  KeptOrForgotten, failed_dispatch_is_forgotten, failed_flush_keeps_or_forgets,
}
use hermes_plugin_async_thre.Adapter.Receive.{dispatch_now}
use hermes_plugin_async_thre.Adapter.State.{Failure, Pending, error_reply, failed}
use hermes_plugin_async_thre.Continuation.{continuation_summary}
use hermes_plugin_async_thre.IngressDigest.Policy.{disabled_policy}
use hermes_plugin_async_thre.Privacy.{
  clip_output, fingerprint, redact_metadata, redact_metadata_text, redact_secret_text,
  safe_event_id,
}
use hermes_plugin_async_thre.Python.Json.{bool, end, field, text}
use hermes_plugin_async_thre.Python.Text.{
  clip, contains, drop_chars, has_prefix, is_token_char, keep_chars, text_length,
}
use hermes_plugin_async_thre.Registry.Seen.{has_seen}
use hermes_plugin_async_thre.Tests.AsciiRuntime.{ascii_runtime, sample_event}
use hermes_plugin_async_thre.Tests.Fixtures.{
  config, gateway, offline, receiver, sample_fields, sample_handle, seen_db,
}

abbrev offline_failure : Failure
offline_failure = dispatch_error "gateway runner unavailable" (
    field "policy" (text "direct") (
      field "target_platform" (text "discord") (
        field "gateway_runner_exists" (bool false) (
          field "session_key_present" (bool false)
            (field "target_adapter_exists" (bool false) end)))))

offline-fails :
    (dispatch_event offline sample_handle sample_event sample_fields
      (disabled_policy "off")
      none
      []).0
    ≡ failed offline_failure
unfolding ack_notice_text clip clip_output contains continuation_summary continue_session
    dispatch_event drop_chars fingerprint hand_over has_prefix ingress_detail is_token_char
    keep_chars note_session_key raw_message redact_metadata redact_metadata_text redact_secret_text
    safe_ack_token safe_event_id safe_session_key_hash send_ack_notice send_direct short_ack_id
    text_length
offline-fails = refl

failed_dispatch_is_forgotten_example :
    let result =
      dispatch_now config offline sample_handle sample_event sample_fields
        (disabled_policy "off")
        none
        (receiver seen_db) in
    (result.0 ≡ error_reply 502 "event dispatch failed")
    × ((q f : String)
        → has_seen q f result.1.db ≡ (has_seen q f seen_db && not ("ci" == q && "run:1" == f)))
failed_dispatch_is_forgotten_example =
    failed_dispatch_is_forgotten config offline sample_handle sample_event sample_fields
      (disabled_policy "off") none (receiver seen_db) offline_failure offline-fails

abbrev waiting : Pending
waiting = record {
  handle = sample_handle;
  data_fields = sample_event;
  fields = sample_fields;
  source_binding = none;
  attempts = 3;
}

failed_flush_keeps_or_forgets_example : KeptOrForgotten "ath_1" (waiting ∷ []) (receiver seen_db) (
    settle_flush config gateway "ath_1"
      (waiting ∷ [])
      "debounce_elapsed"
      sample_fields
      (failed offline_failure)
      (receiver seen_db))
failed_flush_keeps_or_forgets_example =
    failed_flush_keeps_or_forgets config gateway "ath_1" "debounce_elapsed" (waiting ∷ [])
      sample_fields offline_failure (receiver seen_db)
