-- ===== src/Registry/EventLog.antt =====
-- The event log, and what of an event's details it keeps.
use hermes_plugin_async_thre.Prelude.{
  Bool, List, Option, String, [], any, elem, false, if◌then◌else◌, none, not, pos, some, suc, zero,
  ℕ, ◌&&◌, ◌++◌, ◌+◌, ◌==◌, ◌∷◌,
}
use hermes_plugin_async_thre.Privacy.{redact_metadata_text, redact_secret_text, safe_event_id}
use hermes_plugin_async_thre.Python.Except.{ok, raise}
use hermes_plugin_async_thre.Python.Json.{
  Fields, Items, Json, arr, bool, cons, end, field, get, get_or, int, nil, null, obj, put, real,
  text,
}
use hermes_plugin_async_thre.Python.Runtime.{Runtime}
use hermes_plugin_async_thre.Python.Text.{clip, contains, strip}
use hermes_plugin_async_thre.Python.Values.{to_int, to_str, truthy}
use hermes_plugin_async_thre.Registry.Rows.{Db}
use hermes_plugin_async_thre.Security.{EnvelopeFields}

abbrev pub safe_detail_keys : List String
safe_detail_keys =
    "ack_mode" ∷ "ack_sent" ∷ "ack_success" ∷ "continuation_core_enforced"
    ∷ "continuation_fail_closed" ∷ "continuation_limit_reason" ∷ "continuation_policy"
    ∷ "coalesced_count" ∷ "coalesced_reason" ∷ "debounce_seconds" ∷ "ack_error" ∷ "active_session"
    ∷ "direct_send_success" ∷ "error" ∷ "exception_class" ∷ "exception_message"
    ∷ "gateway_runner_exists" ∷ "handle_enabled" ∷ "handle_message_called"
    ∷ "handle_message_returned" ∷ "lifecycle_policy" ∷ "policy" ∷ "queued" ∷ "session_key_hash"
    ∷ "session_key_present" ∷ "terminal_action" ∷ "terminal_event" ∷ "terminal_retired"
    ∷ "workflow_id" ∷ "workflow_stage" ∷ "ingress_digest_mode" ∷ "ingress_digest_source"
    ∷ "ingress_digest_status" ∷ "ingress_digest_storage_mode" ∷ "ingress_digest_pointer_id"
    ∷ "target_adapter_exists" ∷ "target_platform" ∷ []

-- the alternatives of `UNSAFE_DETAIL_KEY_RE`, a search that ignores case
abbrev pub unsafe_detail_markers : List String
unsafe_detail_markers =
    "secret" ∷ "token" ∷ "authorization" ∷ "cookie" ∷ "signature" ∷ "password" ∷ "credential"
    ∷ "payload" ∷ "body" ∷ "headers" ∷ "raw" ∷ "env" ∷ []

module _ ⦃py : Runtime⦄ where
  unfoldable pub keeps_detail_key : String → Bool
  unfolding contains
  keeps_detail_key key =
      elem key safe_detail_keys
      && not (any (λ marker. contains marker (py.lower key)) unsafe_detail_markers)

  -- the text that `_sanitize_detail_value` makes of a value that is neither a number nor a container
  detail_text : String → String
  unfolding redact_secret_text clip
  detail_text s = clip 200 (redact_secret_text (clip 1000 s) 1000 200)

  safe_texts : ℕ → ℕ → Items → Items
  unfolding redact_metadata_text clip strip to_str
  safe_texts width room nil = nil
  safe_texts width zero (cons x xs) = nil
  safe_texts width (suc room) (cons x xs) =
      let rest = safe_texts width room xs in
      if strip (to_str x) == ""
      then rest
      else cons (text (clip width (redact_metadata_text (to_str x)))) rest

  safe_list : ℕ → ℕ → Json → Json
  unfolding safe_texts
  safe_list width room (arr xs) = arr (safe_texts width room xs)
  safe_list width room _ = arr nil

  -- `int(value)`, 0 where that raises. (A float that `int` cannot hold raises `OverflowError` in the
  -- source; the summaries that the program logs hold ints.)
  safe_int : Json → Json
  unfolding to_int
  safe_int v = elim (to_int v) [ ok i ↦ int i | raise e ↦ int (pos 0) ]

  sanitize_continuation_policy : Fields → Fields
  unfolding safe_int safe_list truthy
  sanitize_continuation_policy value =
      field "maxTurns" (safe_int (get_or "maxTurns" (int (pos 0)) value)) (
        field "maxToolCalls" (safe_int (get_or "maxToolCalls" (int (pos 0)) value)) (
          field "timeoutSeconds" (safe_int (get_or "timeoutSeconds" (int (pos 0)) value)) (
            field "toolsets" (safe_list 40 8 (get "toolsets" value)) (
              field "failClosedWithoutCoreBounds"
                (bool (truthy (get_or "failClosedWithoutCoreBounds" (bool false) value)))
                (field "coreEnforced" (bool (truthy (get_or "coreEnforced" (bool false) value)))
                  end)))))

  sanitize_lifecycle_policy : Fields → Fields
  unfolding safe_list truthy
  sanitize_lifecycle_policy value =
      field "terminalEventTypes" (safe_list 80 16 (get "terminalEventTypes" value)) (
        field "terminalStages" (safe_list 80 16 (get "terminalStages" value)) (
          field "autoRetireOnTerminal"
            (bool (truthy (get_or "autoRetireOnTerminal" (bool false) value)))
            (field "sharedListener" (bool (truthy (get_or "sharedListener" (bool false) value)))
              end)))

  -- `_sanitize_detail_value`; `none` where the key is left out
  sanitize_detail_value : Json → Option Json
  unfolding detail_text
  sanitize_detail_value null = none
  sanitize_detail_value (arr xs) = none
  sanitize_detail_value (obj d) = none
  sanitize_detail_value (bool b) = some (bool b)
  sanitize_detail_value (int i) = some (int i)
  sanitize_detail_value (real r) = if py.is_finite r then some (real (py.round_six r)) else none
  sanitize_detail_value (text s) = some (text (detail_text s))

  -- the value that is logged under a key
  sanitize_detail_entry : String → Json → Option Json
  unfolding sanitize_detail_value sanitize_continuation_policy sanitize_lifecycle_policy
  sanitize_detail_entry key (obj d) =
      if key == "continuation_policy"
      then some (obj (sanitize_continuation_policy d))
      else if key == "lifecycle_policy"
      then some (obj (sanitize_lifecycle_policy d))
      else none
  sanitize_detail_entry key v = sanitize_detail_value v

  sanitize_details : Fields → Fields → Fields
  unfolding keeps_detail_key sanitize_detail_entry
  sanitize_details out end = out
  sanitize_details out (field key v d) =
      sanitize_details
        (if keeps_detail_key key
          then elim (sanitize_detail_entry key v) [ none ↦ out | some w ↦ put key w out ]
          else out)
        d

  -- `sanitize_event_detail`
  unfoldable pub sanitize_event_detail : Fields → Fields
  unfolding sanitize_details
  sanitize_event_detail detail = sanitize_details end detail

  -- `log_event`
  unfoldable pub log_event : EnvelopeFields → String → Fields → String → Db → Db
  log_event fields outcome detail now db = record db {
    event_log =
        db.event_log
        ++ (record {
          id = db.next_log_id;
          producer_id = redact_metadata_text fields.producer_id;
          event_id = safe_event_id fields.event_id;
          thread_key = redact_metadata_text fields.thread_key;
          event_type = redact_metadata_text fields.event_type;
          outcome = outcome;
          summary = redact_secret_text fields.summary 1000 500;
          detail = sanitize_event_detail detail;
          created_at = now;
        })
          ∷ [];
    next_log_id = db.next_log_id + 1;
  }
