-- ===== src/Adapter/Ack.antt =====
-- The notice that a listener may send to its chat before an event is handed over.
use hermes_plugin_async_thre.Prelude.{
  Bool, List, String, [], elem, false, if◌then◌else◌, ltb, true, ◌++◌, ◌-◌, ◌<>◌, ◌==◌, ◌∷◌,
}
use hermes_plugin_async_thre.Adapter.State.{
  Delivery, Gateway, ack_send, raised, refused, returned, sent,
}
use hermes_plugin_async_thre.Privacy.{redact_metadata_text, safe_event_id}
use hermes_plugin_async_thre.Python.Json.{Fields, bool, put, text}
use hermes_plugin_async_thre.Python.Runtime.{Runtime}
use hermes_plugin_async_thre.Python.Text.{clip, drop_chars, is_token_char, keep_chars, text_length}
use hermes_plugin_async_thre.Registry.Rows.{Handle}
use hermes_plugin_async_thre.Security.{EnvelopeFields}
use hermes_plugin_async_thre.Workflow.Transition.{or_text}

abbrev pub flag : String → Bool → Fields → Fields
flag key b d = put key (bool b) d

abbrev pub note : String → String → Fields → Fields
note key s d = put key (text s) d

module _ ⦃py : Runtime⦄ where
  -- `_safe_ack_token`
  unfoldable pub safe_ack_token : String → String
  unfolding keep_chars clip is_token_char
  safe_ack_token value = or_text (clip 100 (keep_chars is_token_char value)) "-"

  -- `_short_ack_id`
  unfoldable pub short_ack_id : String → String
  unfolding safe_event_id text_length drop_chars
  short_ack_id event_id =
      let shown = safe_event_id event_id in
      if ltb 8 (text_length shown) then "…" <> drop_chars (text_length shown - 8) shown else shown

  -- `_ack_notice_text`
  unfoldable pub ack_notice_text : String → EnvelopeFields → String → String → String
  unfolding safe_ack_token short_ack_id redact_metadata_text
  ack_notice_text ack_mode fields thread_key outcome =
      let producer = safe_ack_token (redact_metadata_text fields.producer_id) in
      let event = safe_ack_token (redact_metadata_text fields.event_type) in
      if ack_mode == "debug"
      then "async-thread event received\nproducer: `"
        <> producer
        <> "`\neventType: `"
        <> event
        <> "`\neventId: `"
        <> short_ack_id fields.event_id
        <> "`\nthreadKey: `"
        <> safe_ack_token thread_key
        <> "`\ninitialOutcome: `"
        <> safe_ack_token outcome
        <> "`"
      else "received " <> event <> " from " <> producer <> "; starting continuation…"

  module _ (g : Gateway) (h : Handle) where
    abbrev pub ack_mode_of : String
    ack_mode_of = if elem h.ack_mode ("brief" ∷ "debug" ∷ []) then h.ack_mode else "none"

    -- `_send_ack_notice`: a failure is noted and does not stop the continuation
    unfoldable pub send_ack_notice :
        EnvelopeFields → String → Fields → List Delivery → Fields × List Delivery
    send_ack_notice fields outcome detail out =
        let detail = note "ack_mode" ack_mode_of detail in
        let content = ack_notice_text ack_mode_of fields h.thread_key outcome in
        if ack_mode_of == "none" then (flag "ack_sent" false detail, out) else (
          let detail = flag "ack_sent" true detail in
              elim (g.send out h.source content) [
                | raised c m ↦ note "ack_error" m (flag "ack_success" false detail)
                | returned sent ↦ flag "ack_success" true detail
                | returned (refused error) ↦
                    note "ack_error" (or_text error "ack send failed")
                      (flag "ack_success" false detail)
              ],
          out ++ ack_send h.source content ∷ [],
        )
