-- ===== src/IngressDigest/Policy.antt =====
-- `IngressDigestPolicy`, and the mappings it is written as.
use hermes_plugin_async_thre.Prelude.{Bool, String, false, not, pos, true, ℤ, ◌&&◌}
use hermes_plugin_async_thre.Python.Json.{Fields, bool, end, field, int, text}

pub data Mode : Type 0 where
  off pointer pointer_summary inline_summary : Mode

pub data StoreEvent : Type 0 where
  none_stored redacted raw_local : StoreEvent

-- `FETCH_DEFAULTS`
pub data FetchDefault : Type 0 where
  fetch_redacted fetch_raw_local : FetchDefault

pub record IngressDigestPolicy : Type 0 where
  pub enabled : Bool
  pub mode : Mode
  pub provider : String
  pub model : String
  pub max_input_chars : ℤ
  pub max_output_tokens : ℤ
  pub store_event : StoreEvent
  pub fetch_default : FetchDefault
  pub retention_seconds : ℤ
  pub source : String

-- 7 * 24 * 60 * 60 and 24 * 60 * 60
abbrev pub redacted_retention : ℤ
redacted_retention = pos 604800

abbrev pub raw_retention : ℤ
raw_retention = pos 86400

-- `disabled_policy(source=...)`
abbrev pub disabled_policy : String → IngressDigestPolicy
disabled_policy source = record {
  enabled = false;
  mode = off;
  provider = "auto";
  model = "auto";
  max_input_chars = pos 12000;
  max_output_tokens = pos 256;
  store_event = none_stored;
  fetch_default = fetch_redacted;
  retention_seconds = redacted_retention;
  source = source;
}

abbrev pub is_off : Mode → Bool
is_off off = true
is_off _ = false

abbrev pub stores : StoreEvent → Bool
stores none_stored = false
stores _ = true

abbrev pub is_raw_local : StoreEvent → Bool
is_raw_local raw_local = true
is_raw_local _ = false

abbrev pub is_pointer : Mode → Bool
is_pointer pointer = true
is_pointer pointer_summary = true
is_pointer _ = false

abbrev pub mode_text : Mode → String
mode_text off = "off"
mode_text pointer = "pointer"
mode_text pointer_summary = "pointer_summary"
mode_text inline_summary = "inline_summary"

abbrev pub store_event_text : StoreEvent → String
store_event_text none_stored = "none"
store_event_text redacted = "redacted"
store_event_text raw_local = "raw_local"

abbrev pub fetch_default_text : FetchDefault → String
fetch_default_text fetch_redacted = "redacted"
fetch_default_text fetch_raw_local = "raw_local"

-- the properties `active` and `stores_payload`
abbrev pub active : IngressDigestPolicy → Bool
active p = p.enabled && not (is_off p.mode)

abbrev pub stores_payload : IngressDigestPolicy → Bool
stores_payload p = active p && stores p.store_event

-- `to_mapping`
abbrev pub policy_to_mapping : IngressDigestPolicy → Fields
policy_to_mapping p = field "enabled" (bool p.enabled) (
    field "mode" (text (mode_text p.mode)) (
      field "provider" (text p.provider) (
        field "model" (text p.model) (
          field "max_input_chars" (int p.max_input_chars) (
            field "max_output_tokens" (int p.max_output_tokens) (
              field "store_event" (text (store_event_text p.store_event)) (
                field "fetch_default" (text (fetch_default_text p.fetch_default))
                  (field "retention_seconds" (int p.retention_seconds) end))))))))

-- `{"enabled": False, "mode": "off"}`
abbrev pub disabled_mapping : Fields
disabled_mapping = field "enabled" (bool false) (field "mode" (text "off") end)
