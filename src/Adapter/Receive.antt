-- ===== src/Adapter/Receive.antt =====
-- `_handle_event`: from a request to its reply.
use hermes_plugin_async_thre.Prelude.{
  Bool, Option, String, [], elem, false, if◌then◌else◌, is_empty, none, not, some, true, ◌&&◌, ◌++◌,
  ◌==◌, ◌∷◌,
}
use hermes_plugin_async_thre.Adapter.Ack.{flag, note}
use hermes_plugin_async_thre.Adapter.Buckets.{pending_contains}
use hermes_plugin_async_thre.Adapter.Coalesce.{
  flush_coalesced, queue_coalesced, record_workflow_state, resolve_ingress_payload,
}
use hermes_plugin_async_thre.Adapter.Dispatch.{dispatch_event}
use hermes_plugin_async_thre.Adapter.Events.{is_priority_event, should_coalesce}
use hermes_plugin_async_thre.Adapter.State.{
  Config, Dispatched, Gateway, Receiver, Reply, Request, delivered, direct_delivered, error_reply,
  failed, invalid_signature, outcome_text, producer_status, status_reply, with_db,
}
use hermes_plugin_async_thre.IngressDigest.Policy.{IngressDigestPolicy}
use hermes_plugin_async_thre.Lifecycle.{
  auto_retired, is_terminal_event, lifecycle_summary, shared_listener_kept_enabled, terminal_action,
  terminal_action_text, warn_only,
}
use hermes_plugin_async_thre.Python.Except.{Exc, Except, ok, raise, validation, ◌>>=◌}
use hermes_plugin_async_thre.Python.Json.{Fields, end, get, merge, obj, put}
use hermes_plugin_async_thre.Python.Runtime.{Runtime}
use hermes_plugin_async_thre.Python.Values.{str_or_empty}
use hermes_plugin_async_thre.Registry.EventLog.{log_event}
use hermes_plugin_async_thre.Registry.Handles.{get_handle, set_enabled}
use hermes_plugin_async_thre.Registry.Rows.{Handle, PayloadRow}
use hermes_plugin_async_thre.Registry.Seen.{forget_seen, has_seen, mark_seen}
use hermes_plugin_async_thre.Security.{
  EnvelopeFields, extract_envelope_fields, parse_json_body, signature_header, validate_timestamp,
  verify_hmac_signature,
}

-- `except EventValidationError` and `except Exception`
unfoldable pub reply_to_exception : Exc → Reply
reply_to_exception (validation message) = error_reply 400 message
reply_to_exception _ = error_reply 502 "event dispatch failed"

-- the listener lists its event types, and this is none of them
abbrev pub refuses_type : Handle → EnvelopeFields → Bool
refuses_type h fields =
    not (is_empty h.allowed_event_types) && not (elem fields.event_type h.allowed_event_types)

module _ ⦃py : Runtime⦄ (cfg : Config) (g : Gateway) where
  -- a summary of the event in the log
  abbrev pub log : EnvelopeFields → String → Fields → Receiver → Receiver
  log fields outcome detail st = with_db (log_event fields outcome detail g.utc_now st.db) st

  -- `handle.platform`
  abbrev platform_notes : Handle → Fields
  platform_notes h =
      note "target_platform" (str_or_empty (get "platform" h.source)) (note "policy" h.policy end)

  -- the part before a listener is looked up
  unfoldable pub validated : Request → Except (Fields × EnvelopeFields)
  validated request = do
    d ← parse_json_body request.raw cfg.max_body_bytes
    fields ← extract_envelope_fields d
    checked ← validate_timestamp (get "occurredAt" d) g.time cfg.replay_window_seconds
    ok (d, fields)

  -- `_apply_lifecycle_after_dispatch`
  unfoldable pub apply_lifecycle :
      Handle → Fields → EnvelopeFields → Fields → Receiver → Fields × Receiver
  apply_lifecycle h d fields detail st =
      let policy = h.lifecycle_policy in
      let detail' = put "lifecycle_policy" (obj (lifecycle_summary policy)) (
        note "terminal_action" (terminal_action_text (terminal_action policy))
          (flag "terminal_event" true detail)) in
      if not (is_terminal_event d fields.event_type policy)
      then (detail, st)
      else elim (terminal_action policy) [
        | auto_retired ↦
            let disabling = set_enabled h.thread_key false g.utc_now st.db in
            (
              flag "terminal_retired" disabling.0 detail',
              record st {
                db = disabling.1;
                removed_secrets = st.removed_secrets ++ h.thread_key ∷ [];
              },
            )
        | shared_listener_kept_enabled ↦ (flag "terminal_retired" false detail', st)
        | warn_only ↦ (flag "terminal_retired" false detail', st)
      ]

  -- what follows on a dispatch of a single event
  unfoldable pub settle :
      Handle → Fields → EnvelopeFields → Dispatched → Receiver → Reply × Receiver
  settle h d fields (failed e) st =
      let detail =
        note "exception_message" e.message
          (note "exception_class" e.exception_class (merge e.detail (platform_notes h))) in
      (
        error_reply 502 "event dispatch failed",
        log fields "dispatch_failed" detail
            (with_db (forget_seen fields.producer_id fields.event_id st.db) st),
      )
  settle h d fields (delivered outcome detail) st =
      let recorded = record_workflow_state h d fields g.utc_now detail st.db in
      let applied = apply_lifecycle h d fields recorded.0 (with_db recorded.1 st) in
      (
        status_reply (elim outcome [ direct_delivered ↦ 200 | _ ↦ 202 ]) (producer_status outcome)
            h.thread_key,
        log fields (outcome_text outcome) applied.0 applied.1,
      )

  unfoldable pub dispatch_now :
      Handle
      → Fields
      → EnvelopeFields
      → IngressDigestPolicy
      → Option PayloadRow
      → Receiver
      → Reply × Receiver
  dispatch_now h d fields policy payload st =
      let result = dispatch_event g h d fields policy payload st.deliveries in
      settle h d fields result.0 (record st { deliveries = result.1 })

  -- the part after the event's mark was made
  unfoldable pub accepted : Handle → Fields → EnvelopeFields → Receiver → Reply × Receiver
  accepted h d fields st = elim (resolve_ingress_payload cfg g h d fields none st.db) [
    | raise e ↦ (reply_to_exception e, st)
    | ok (binding, policy, payload, db) ↦
        let stored = with_db db st in
        let flushed = flush_coalesced cfg g h.thread_key "priority_flush" stored in
        let queued = queue_coalesced cfg g h d fields binding stored in
        if not (is_empty (st.coalesced h.thread_key)) && is_priority_event d fields
        then elim flushed.0 [
          | raise e ↦ (reply_to_exception e, flushed.1)
          | ok u ↦ dispatch_now h d fields policy payload flushed.1
        ]
        else if should_coalesce h d fields
        then (
          status_reply 202 "queued" h.thread_key,
          log fields "coalesced_pending" queued.0 queued.1,
        )
        else dispatch_now h d fields policy payload stored
  ]

  -- an event whose mark was there before
  unfoldable pub seen_before : Handle → EnvelopeFields → Receiver → Reply × Receiver
  seen_before h fields st =
      if pending_contains fields.thread_key fields.producer_id fields.event_id st
      then (status_reply 202 "queued" h.thread_key, st)
      else (status_reply 200 "duplicate" h.thread_key, log fields "duplicate" (platform_notes h) st)

  abbrev enabled_notes : Handle → Fields
  enabled_notes h =
      note "target_platform" (str_or_empty (get "platform" h.source))
        (note "policy" h.policy (flag "handle_enabled" h.enabled end))

  -- the part after the signature was found right
  unfoldable pub authenticated : Handle → Fields → EnvelopeFields → Receiver → Reply × Receiver
  authenticated h d fields st =
      let sighting =
        mark_seen fields.producer_id fields.event_id fields.thread_key g.utc_now st.db in
      if not h.enabled
      then if has_seen fields.producer_id fields.event_id st.db
        then (
          status_reply 200 "duplicate" h.thread_key,
          log fields "duplicate" (enabled_notes h) st,
        )
        else (
          invalid_signature,
          log fields "rejected_missing_or_disabled_handle" (flag "handle_enabled" false end) st,
        )
      else if not (h.producer_id == fields.producer_id)
      then (invalid_signature, log fields "rejected_producer_scope" (enabled_notes h) st)
      else if refuses_type h fields
      then (invalid_signature, log fields "rejected_event_type" (enabled_notes h) st)
      else if sighting.0
      then accepted h d fields (with_db sighting.1 st)
      else seen_before h fields st

  -- `_handle_event`
  unfoldable pub handle_event : Request → Receiver → Reply × Receiver
  handle_event request st = elim (validated request) [
    | raise e ↦ (reply_to_exception e, st)
    | ok (d, fields) ↦ elim (get_handle fields.thread_key st.db) [
      | none ↦ (invalid_signature, st)
      | some h ↦
          elim (verify_hmac_signature request.raw h.secret (signature_header request.headers)) [
            | raise e ↦ (reply_to_exception e, st)
            | ok false ↦ (invalid_signature, st)
            | ok true ↦ authenticated h d fields st
          ]
    ]
  ]
