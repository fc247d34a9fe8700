-- ===== src/IngressDigest/Resolve.antt =====
-- Which layer holds: async_threads/ingress_digest.py, `resolve_ingress_digest_policy`.
use hermes_plugin_async_thre.Prelude.{Bool, String, false, if◌then◌else◌, true, ◌||◌}
use hermes_plugin_async_thre.IngressDigest.Normalize.{
  canonical_mapping, explicit_disable, normalize_policy,
}
use hermes_plugin_async_thre.IngressDigest.Policy.{
  IngressDigestPolicy, active, disabled_mapping, disabled_policy, policy_to_mapping,
}
use hermes_plugin_async_thre.Python.Except.{Except, ok, ◌>>=◌}
use hermes_plugin_async_thre.Python.Json.{Fields, Json, end, is_empty_dict, merge}
use hermes_plugin_async_thre.Python.Runtime.{Runtime}

-- The loop of `resolve_ingress_digest_policy`: the merged mapping and its layer, and the last layer
-- that disables. `pending` says that this layer stands above the last one that was merged.
pub record Resolution : Type 0 where
  pub merged : Fields
  pub source : String
  pub disabled_source : String
  pub pending : Bool

module _ ⦃py : Runtime⦄ where
  unfoldable pub add_layer : Resolution → String → Json → Resolution
  unfolding canonical_mapping explicit_disable
  add_layer r name layer =
      let raw = canonical_mapping layer in
      if is_empty_dict raw
      then r
      else if explicit_disable raw
      then record r { disabled_source = name; pending = true }
      else record r { merged = merge r.merged raw; source = name; pending = false }

  unfoldable pub resolve_ingress_digest_policy : Json → Json → Json → Except IngressDigestPolicy
  unfolding add_layer
  resolve_ingress_digest_policy global_policy listener_policy source_binding_policy =
      let start : Resolution = record {
        merged = end;
        source = "off";
        disabled_source = "off";
        pending = false;
      } in
      let r =
        add_layer (add_layer (add_layer start "global" global_policy) "listener" listener_policy)
          "source_binding" source_binding_policy in
      if r.pending || is_empty_dict r.merged
      then ok (disabled_policy r.disabled_source)
      else normalize_policy r.merged r.source

  -- `policy_override_mapping(value)`
  unfoldable pub policy_override_mapping : Json → Except Fields
  policy_override_mapping value =
      let raw = canonical_mapping value in
      if is_empty_dict raw then ok end else if explicit_disable raw then ok disabled_mapping else do
        policy ← normalize_policy raw "override"
        ok (if active policy then policy_to_mapping policy else disabled_mapping)
