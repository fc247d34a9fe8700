-- ===== src/Tests/Policies.antt =====
-- The theorems on policies and workflows, at concrete inputs.
use hermes_plugin_async_thre.Prelude.{String, [], false, none, pos, refl, true, ◌||◌, ◌↔◌, ◌∷◌, ◌≡◌}
use hermes_plugin_async_thre.Continuation.{
  ContinuationPolicy, add_toolsets, continuation_from_mapping, normalize_toolsets, toolset_items,
  toolset_token,
}
use hermes_plugin_async_thre.Continuation.Bounds.{
  IsBounded, bounded_int_raises_iff, continuation_from_mapping-IsBounded,
}
use hermes_plugin_async_thre.IngressDigest.Layers.{contributed, source_binding_decides}
use hermes_plugin_async_thre.IngressDigest.Normalize.{
  canonical_mapping, clean_meta, enabled_policy, explicit_disable, keyword, normalize_policy,
  read_fetch_default, read_mode, read_store_event,
}
use hermes_plugin_async_thre.IngressDigest.Policies.{
  IsSafe, normalize_policy-IsSafe, partial_override_disables,
}
use hermes_plugin_async_thre.IngressDigest.Policy.{
  IngressDigestPolicy, active, disabled_policy, fetch_redacted, pointer, redacted,
}
use hermes_plugin_async_thre.IngressDigest.Resolve.{
  policy_override_mapping, resolve_ingress_digest_policy,
}
use hermes_plugin_async_thre.Privacy.{clip_output, fingerprint, redact_metadata, redact_secret_text}
use hermes_plugin_async_thre.Python.Except.{ok, overflow_error, raise}
use hermes_plugin_async_thre.Python.Json.{
  Fields, Json, bool, end, field, find, int, is_empty_dict, null, obj, real, text,
}
use hermes_plugin_async_thre.Python.Keys.{or_else}
use hermes_plugin_async_thre.Python.Text.{
  clip, contains, has_prefix, keep_chars, lstrip, replace, rstrip, split, strip, text_length,
}
use hermes_plugin_async_thre.Python.Values.{
  bounded_int, chars_of, is_type_or_value_error, items_of, iterate, or_default, or_value,
  str_or_empty, to_int, to_str, truthy,
}
use hermes_plugin_async_thre.Tests.AsciiRuntime.{ascii_runtime}

-- a policy that asks for too much
abbrev greedy : Fields
greedy =
    field "maxTurns" (int (pos 99))
      (field "timeout_seconds" (text "soon") (field "toolsets" (text "web, Web,fs") end))

abbrev bounded_policy : ContinuationPolicy
bounded_policy = record {
  max_turns = pos 5;
  max_tool_calls = pos 0;
  timeout_seconds = pos 120;
  toolsets = "web" ∷ "fs" ∷ [];
  fail_closed_without_core_bounds = false;
}

greedy-read : continuation_from_mapping greedy ≡ ok bounded_policy
unfolding add_toolsets bounded_int chars_of clip continuation_from_mapping is_type_or_value_error
    items_of iterate keep_chars lstrip normalize_toolsets or_default rstrip split str_or_empty strip
    to_int to_str toolset_items toolset_token truthy
greedy-read = refl

continuation_from_mapping-IsBounded_example : IsBounded bounded_policy
continuation_from_mapping-IsBounded_example = continuation_from_mapping-IsBounded greedy greedy-read

bounded_int_raises_iff_example :
    (bounded_int (real "inf") (pos 1) (pos 1) (pos 5) ≡ raise overflow_error)
    ↔ (overflow_error ≡ overflow_error)
      × (r : String) × (real "inf" ≡ real r)
      × (ascii_runtime.int_of_real r ≡ raise overflow_error)
bounded_int_raises_iff_example =
    bounded_int_raises_iff (real "inf") (pos 1) (pos 1) (pos 5) overflow_error

-- and an infinite float does raise
infinite-raises : bounded_int (real "inf") (pos 1) (pos 1) (pos 5) ≡ raise overflow_error
unfolding bounded_int is_type_or_value_error or_default to_int
infinite-raises = refl

abbrev raw_digest : Fields
raw_digest = field "enabled" (bool true) (
    field "mode" (text "Pointer")
      (field "store_event" (text "none") (field "fetch_default" (text "raw_local") end)))

abbrev pointer_policy : IngressDigestPolicy
pointer_policy = record {
  enabled = true;
  mode = pointer;
  provider = "auto";
  model = "auto";
  max_input_chars = pos 12000;
  max_output_tokens = pos 256;
  store_event = redacted;
  fetch_default = fetch_redacted;
  retention_seconds = pos 604800;
  source = "listener";
}

raw_digest-read : normalize_policy raw_digest "listener" ≡ ok pointer_policy
unfolding bounded_int clean_meta clip clip_output contains enabled_policy explicit_disable
    fingerprint has_prefix is_type_or_value_error keyword lstrip normalize_policy or_default
    or_value read_fetch_default read_mode read_store_event redact_metadata redact_secret_text
    replace rstrip strip text_length to_int to_str truthy
raw_digest-read = refl

normalize_policy-IsSafe_example : IsSafe pointer_policy
normalize_policy-IsSafe_example = normalize_policy-IsSafe raw_digest "listener" raw_digest-read

-- an override that only asks for a longer retention
abbrev longer : Json
longer = obj (field "retentionSeconds" (int (pos 1000)) end)

longer-given : is_empty_dict (canonical_mapping longer) ≡ false
unfolding canonical_mapping
longer-given = refl

longer-lacks_enabled : find "enabled" (canonical_mapping longer) ≡ none
unfolding canonical_mapping
longer-lacks_enabled = refl

null-adds_none :
    (is_empty_dict (canonical_mapping null) || explicit_disable (canonical_mapping null)) ≡ true
unfolding canonical_mapping explicit_disable
null-adds_none = refl

partial_override_disables_example :
    (saved : Fields) × (policy_override_mapping longer ≡ ok saved)
    × (p : IngressDigestPolicy) × (resolve_ingress_digest_policy (obj raw_digest) (obj saved) null
        ≡ ok p)
    × (active p ≡ false)
partial_override_disables_example =
    partial_override_disables longer (obj raw_digest) null longer-given longer-lacks_enabled
      null-adds_none

source_binding_decides_example :
    (explicit_disable (canonical_mapping longer) ≡ true
      → resolve_ingress_digest_policy (obj raw_digest) null longer
        ≡ ok (disabled_policy "source_binding"))
    × (explicit_disable (canonical_mapping longer) ≡ false
        → (merged : Fields) × (resolve_ingress_digest_policy (obj raw_digest) null longer
            ≡ normalize_policy merged "source_binding")
          × ((k : String)
              → find k merged
                ≡ or_else
                    (find k (canonical_mapping longer))
                    (or_else (find k (contributed null)) (find k (contributed (obj raw_digest))))))
source_binding_decides_example = source_binding_decides (obj raw_digest) null longer longer-given
