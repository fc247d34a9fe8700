-- ===== src/Adapter/Dispatch.antt =====
-- `dispatch_event`, from the renderer to the gateway. It returns what went out beside its result; it
-- touches nothing else that the receiver holds.
use hermes_plugin_async_thre.Prelude.{
  List, Option, String, [], false, if◌then◌else◌, none, not, some, true, ◌&&◌, ◌++◌, ◌<>◌, ◌==◌,
  ◌∷◌,
}
use hermes_plugin_async_thre.Adapter.Ack.{flag, note, send_ack_notice}
use hermes_plugin_async_thre.Adapter.State.{
  Delivery, Dispatched, Failure, Gateway, Message, agent_started, delivered, direct_delivered,
  direct_send, failed, outcome_text, queue_for_session, queued_active_session, raised, refused,
  returned, sent, start_session,
}
use hermes_plugin_async_thre.Continuation.{continuation_summary}
use hermes_plugin_async_thre.IngressDigest.Policy.{IngressDigestPolicy, mode_text, store_event_text}
use hermes_plugin_async_thre.Privacy.{redact_metadata_text, safe_event_id}
use hermes_plugin_async_thre.Python.Json.{Fields, bool, end, field, obj, put, text}
use hermes_plugin_async_thre.Python.Runtime.{Runtime}
use hermes_plugin_async_thre.Python.Text.{clip}
use hermes_plugin_async_thre.Registry.Rows.{Handle, PayloadRow}
use hermes_plugin_async_thre.Security.{EnvelopeFields}
use hermes_plugin_async_thre.Workflow.Transition.{or_text}

abbrev pub dispatch_error : String → Fields → Failure
dispatch_error message detail = record {
  exception_class = "DispatchEventError";
  message = message;
  detail = detail;
}

-- an exception without a `detail`
abbrev pub other_error : String → String → Failure
other_error exception_class message = record {
  exception_class = exception_class;
  message = message;
  detail = end;
}

module _ ⦃py : Runtime⦄ where
  -- `safe_session_key_hash`
  unfoldable pub safe_session_key_hash : String → String
  unfolding clip
  safe_session_key_hash key = if key == "" then "" else clip 12 (py.sha256_hex key)

  -- `session_key_present` and, of a key that is not empty, `session_key_hash`
  unfoldable pub note_session_key : String → Fields → Fields
  unfolding safe_session_key_hash
  note_session_key key d =
      let present = flag "session_key_present" (not (key == "")) d in
      if key == "" then present else note "session_key_hash" (safe_session_key_hash key) present

  module _ (g : Gateway) (h : Handle) where
    -- the branch of the policy `direct`
    unfoldable pub send_direct : String → Fields → List Delivery → Dispatched × List Delivery
    send_direct body detail out = (
      elim (g.send out h.source body) [
        | raised c m ↦ failed (dispatch_error m (flag "direct_send_success" false detail))
        | returned sent ↦ delivered direct_delivered (flag "direct_send_success" true detail)
        | returned (refused error) ↦ failed (
            dispatch_error (or_text error "direct delivery failed")
              (flag "direct_send_success" false detail))
      ],
      out ++ direct_send h.source body ∷ [],
    )

    -- `raw_message` of the event
    unfoldable pub raw_message : EnvelopeFields → Fields
    raw_message fields = field "async_thread_event" (bool true) (
        field "eventId" (text (safe_event_id fields.event_id)) (
          field "eventType" (text (redact_metadata_text fields.event_type)) (
            field "producerId" (text (redact_metadata_text fields.producer_id)) (
              field "threadKey" (text h.thread_key) (
                field "continuationPolicy" (obj (continuation_summary h.continuation_policy false))
                  (field "continuationPolicyCoreEnforced" (bool false) end))))))

    abbrev pub message_of : String → EnvelopeFields → Message
    message_of body fields = record {
      body = body;
      source = h.source;
      raw_message = raw_message fields;
      message_id = safe_event_id fields.event_id;
    }

    -- the end of `dispatch_event`, with the session's key
    unfoldable pub hand_over :
        String → Message → EnvelopeFields → Fields → List Delivery → Dispatched × List Delivery
    hand_over key message fields detail out =
        let is_active = g.has_active_session key in
        let outcome = if is_active then queued_active_session else agent_started in
        let detail = flag "handle_message_returned" false (
          flag "handle_message_called" false (
            flag "queued" false (flag "active_session" is_active (note_session_key key detail)))) in
        let acked = send_ack_notice g h fields (outcome_text outcome) detail out in
        let called = flag "handle_message_called" true acked.0 in
        if is_active
        then (
          elim (g.merge_pending acked.1 key message) [
            | raised c m ↦ failed (other_error c m)
            | returned u ↦ delivered queued_active_session (flag "queued" true acked.0)
          ],
          acked.1 ++ queue_for_session key message ∷ [],
        )
        else (
          elim (g.handle_message acked.1 message) [
            | raised c m ↦ failed (dispatch_error m called)
            | returned u ↦ delivered agent_started (flag "handle_message_returned" true called)
          ],
          acked.1 ++ start_session message ∷ [],
        )

    -- the branch of the other policy
    unfoldable pub continue_session :
        String → EnvelopeFields → Fields → List Delivery → Dispatched × List Delivery
    continue_session body fields detail out =
        let detail = flag "continuation_core_enforced" false (
          put "continuation_policy" (obj (continuation_summary h.continuation_policy false))
            detail) in
        if h.continuation_policy.fail_closed_without_core_bounds
        then (
          failed (
              dispatch_error "bounded continuation unavailable" (
                note "continuation_limit_reason" "core_bounds_unavailable"
                  (flag "continuation_fail_closed" true detail))),
          out,
        )
        else elim (if h.session_key == ""
            then g.build_session_key h.source
            else returned h.session_key) [
              | raised c m ↦ (failed (other_error c m), out)
              | returned key ↦ hand_over key (message_of body fields) fields detail out
            ]

    unfoldable pub ingress_detail : IngressDigestPolicy → Option PayloadRow → Fields → Fields
    ingress_detail policy payload detail =
        let detail =
          note "ingress_digest_source" policy.source
            (note "ingress_digest_mode" (mode_text policy.mode) detail) in
        elim payload [
          | none ↦ detail
          | some row ↦ note "ingress_digest_pointer_id" row.pointer_id (
              note "ingress_digest_storage_mode" (store_event_text row.storage_mode)
                (note "ingress_digest_status" "stored" detail))
        ]

    -- `dispatch_event`
    unfoldable pub dispatch_event :
        Fields
        → EnvelopeFields
        → IngressDigestPolicy
        → Option PayloadRow
        → List Delivery
        → Dispatched × List Delivery
    dispatch_event d fields policy payload out = elim (g.platform h.source) [
      | raised c m ↦ (failed (other_error c m), out)
      | returned platform ↦
          let start = note_session_key h.session_key (
            flag "gateway_runner_exists" g.runner_exists
              (note "target_platform" platform (note "policy" h.policy end))) in
          let reached = g.runner_exists && g.adapter_exists platform in
          let detail = flag "target_adapter_exists" reached start in
          let body = g.render d fields policy payload in
          let full = ingress_detail policy payload detail in
          if not g.runner_exists
          then (failed (dispatch_error "gateway runner unavailable" detail), out)
          else if not (g.adapter_exists platform)
          then (failed (dispatch_error ("target platform not connected: " <> platform) detail), out)
          else if h.policy == "direct"
          then send_direct body full out
          else continue_session body fields full out
    ]
