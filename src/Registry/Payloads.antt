-- ===== src/Registry/Payloads.antt =====
-- The table of stored event payloads, unique by owner, listener, producer and event.
use hermes_plugin_async_thre.Prelude.{
  Bool, Option, String, [], clamp_zero, false, first, if◌then◌else◌, none, not, some, true, ◌&&◌,
  ◌++◌, ◌==◌, ◌||◌, ◌∷◌,
}
use hermes_plugin_async_thre.IngressDigest.Payload.{
  bounded_event_payload, build_pointer_id, local_digest,
}
use hermes_plugin_async_thre.IngressDigest.Policy.{
  IngressDigestPolicy, is_raw_local, mode_text, stores_payload,
}
use hermes_plugin_async_thre.Privacy.{redact_metadata_text, safe_event_id}
use hermes_plugin_async_thre.Python.Json.{Fields, bool, end, field, get_or, text}
use hermes_plugin_async_thre.Python.Runtime.{Runtime}
use hermes_plugin_async_thre.Registry.Rows.{Db, Handle, PayloadRow}
use hermes_plugin_async_thre.Security.{EnvelopeFields}

unfoldable pub is_payload_of : String → String → String → String → PayloadRow → Bool
is_payload_of owner thread_key producer_id event_id row =
    row.owner_user_id == owner
    && row.thread_key == thread_key
    && row.producer_id == producer_id
    && row.event_id == event_id

module _ ⦃py : Runtime⦄ where
  -- the row that `store_event_payload` inserts; `expires_at` is `payload_expires_at(policy)`
  unfoldable pub new_payload :
      Handle → Fields → EnvelopeFields → IngressDigestPolicy → String → String → String → PayloadRow
  unfolding build_pointer_id bounded_event_payload local_digest redact_metadata_text safe_event_id
  new_payload handle d fields policy source_binding_id expires_at now =
      let max_chars = clamp_zero policy.max_input_chars in
      let digest = local_digest d fields.event_type fields.producer_id fields.summary max_chars in
      record {
        pointer_id =
            build_pointer_id handle.owner_user_id handle.thread_key fields.producer_id
              fields.event_id;
        owner_user_id = handle.owner_user_id;
        thread_key = handle.thread_key;
        producer_id = redact_metadata_text fields.producer_id;
        event_id = safe_event_id fields.event_id;
        event_type = redact_metadata_text fields.event_type;
        source_binding_id = redact_metadata_text source_binding_id;
        storage_mode = policy.store_event;
        redacted_payload = bounded_event_payload d max_chars true;
        raw_payload =
            if is_raw_local policy.store_event
            then bounded_event_payload d max_chars false
            else end;
        digest = digest;
        diagnostics = field "mode" (text (mode_text policy.mode)) (
            field "source" (text policy.source) (
              field "digestStatus" (get_or "status" (text "") digest)
                (field "modelCalled" (bool false) end)));
        created_at = now;
        expires_at = expires_at;
      }

  -- `store_event_payload`: an existing row stays as it is
  unfoldable pub store_event_payload :
      Handle
      → Fields
      → EnvelopeFields
      → IngressDigestPolicy
      → String
      → String
      → String
      → Db
      → Option PayloadRow × Db
  unfolding new_payload is_payload_of redact_metadata_text safe_event_id
  store_event_payload handle d fields policy source_binding_id expires_at now db =
      let row = new_payload handle d fields policy source_binding_id expires_at now in
      let this =
        is_payload_of handle.owner_user_id handle.thread_key
          (redact_metadata_text fields.producer_id) (safe_event_id fields.event_id) in
      if not (stores_payload policy) || handle.owner_user_id == ""
      then (none, db)
      else elim (first this db.event_payloads) [
        | some existing ↦ (some existing, db)
        | none ↦ (some row, record db { event_payloads = db.event_payloads ++ row ∷ [] })
      ]
