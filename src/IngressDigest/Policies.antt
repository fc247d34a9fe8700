-- ===== src/IngressDigest/Policies.antt =====
-- What a normalized policy can be, and what storing an override does to it.
use mathlib.Core.Path.{subst}
use hermes_plugin_async_thre.Prelude.{
  Bool-cases, String, arith, false, if◌then◌else◌, inl, inr, none, not, pos, refl, true, ◌&&◌, ◌||◌,
  ◌≡◌, ◌≤ℤ◌,
}
use hermes_plugin_async_thre.Continuation.Bounds.{bounded_int_bounds}
use hermes_plugin_async_thre.IngressDigest.Normalize.{
  canonical_mapping, enabled_policy, explicit_disable, normalize_policy, read_mode,
  read_store_event,
}
use hermes_plugin_async_thre.IngressDigest.Policy.{
  FetchDefault, IngressDigestPolicy, Mode, StoreEvent, active, disabled_mapping, disabled_policy,
  fetch_raw_local, fetch_redacted, is_off, is_pointer, is_raw_local, none_stored, off,
  pointer_summary, raw_local, raw_retention, redacted, redacted_retention, stores, stores_payload,
}
use hermes_plugin_async_thre.IngressDigest.Resolve.{
  policy_override_mapping, resolve_ingress_digest_policy,
}
use hermes_plugin_async_thre.Origin.Index.{resolved}
use hermes_plugin_async_thre.Python.Dicts.{get-missing}
use hermes_plugin_async_thre.Python.Except.{bind-eq-ok, ok, ok-injective}
use hermes_plugin_async_thre.Python.Json.{Fields, Json, find, get, is_empty_dict, obj}
use hermes_plugin_async_thre.Python.Runtime.{Runtime}
use hermes_plugin_async_thre.Python.Values.{bounded_int, truthy}

-- An inactive policy stores nothing. An active one is within the limits, a pointer mode stores the
-- payload that its pointer names, and raw payloads are fetched only where they are stored.
pub record IsSafe (p : IngressDigestPolicy) : Type 0 where
  pub inactive_stores_nothing : active p ≡ false → stores_payload p ≡ false
  pub input_low : pos 1000 ≤ℤ p.max_input_chars
  pub input_high : p.max_input_chars ≤ℤ pos 100000
  pub output_low : pos 32 ≤ℤ p.max_output_tokens
  pub output_high : p.max_output_tokens ≤ℤ pos 2048
  pub retention_low : pos 60 ≤ℤ p.retention_seconds
  pub retention_high : p.retention_seconds ≤ℤ pos 2592000
  pub pointers_point : active p ≡ true → is_pointer p.mode ≡ true → stores_payload p ≡ true
  pub raw_only_if_stored : p.fetch_default ≡ fetch_raw_local → p.store_event ≡ raw_local

disabled_policy-IsSafe : (source : String) → IsSafe (disabled_policy source)
disabled_policy-IsSafe source = record {
  inactive_stores_nothing = λ _. refl;
  input_low = omega arith;
  input_high = omega arith;
  output_low = omega arith;
  output_high = omega arith;
  retention_low = omega arith;
  retention_high = omega arith;
  pointers_point = λ h. cc;
  raw_only_if_stored = λ h. cc;
}

-- the store mode that `normalize_ingress_digest_policy` settles on
abbrev settled : Mode → StoreEvent → StoreEvent
settled mode given = if is_pointer mode && not (stores given) then redacted else given

settled-stores :
    (mode : Mode) (given : StoreEvent) → is_pointer mode ≡ true → stores (settled mode given) ≡ true
settled-stores mode given h = ground arith

raw_fetch :
    (s : StoreEvent) (f : FetchDefault)
    → (if is_raw_local s then f else fetch_redacted) ≡ fetch_raw_local
    → s ≡ raw_local
raw_fetch raw_local f h = refl
raw_fetch none_stored f h = cc
raw_fetch redacted f h = cc

module _ ⦃py : Runtime⦄ where
  enabled_policy-IsSafe :
      (raw : Fields) (mode : Mode) (source : String) {p : IngressDigestPolicy}
      → is_off mode ≡ false
      → enabled_policy raw mode source ≡ ok p
      → IsSafe p
  unfolding enabled_policy
  enabled_policy-IsSafe raw mode source {p} on h =
      let given =
        read_store_event (get "store_event" raw)
          (if is_pointer mode then redacted else none_stored) in
      let s = settled mode given in
      let retention = if is_raw_local s then raw_retention else redacted_retention in
      let (input, e1, h1) =
        bind-eq-ok (bounded_int (get "max_input_chars" raw) (pos 12000) (pos 1000) (pos 100000)) _
          h in
      let (output, e2, h2) =
        bind-eq-ok (bounded_int (get "max_output_tokens" raw) (pos 256) (pos 32) (pos 2048)) _ h1 in
      let (kept, e3, h3) =
        bind-eq-ok (bounded_int (get "retention_seconds" raw) retention (pos 60) (pos 2592000)) _
          h2 in
      let b1 = bounded_int_bounds _ (pos 12000) (pos 1000) (pos 100000) (omega arith) e1 in
      let b2 = bounded_int_bounds _ (pos 256) (pos 32) (pos 2048) (omega arith) e2 in
      let b3 = bounded_int_bounds _ retention (pos 60) (pos 2592000) (omega arith) e3 in
      subst IsSafe (ok-injective h3) (record {
        inactive_stores_nothing = λ off_. rw off_ refl;
        input_low = b1.0;
        input_high = b1.1;
        output_low = b2.0;
        output_high = b2.1;
        retention_low = b3.0;
        retention_high = b3.1;
        pointers_point = λ a ptr. rw on (settled-stores mode given ptr);
        raw_only_if_stored = raw_fetch s _;
      })

  -- Every policy that `normalize_ingress_digest_policy` returns is safe in the sense of `IsSafe`.
  pub normalize_policy-IsSafe :
      (raw : Fields) (source : String) {p : IngressDigestPolicy}
      → normalize_policy raw source ≡ ok p
      → IsSafe p
  unfolding normalize_policy
  normalize_policy-IsSafe raw source {p} h =
      let enabled = truthy (get "enabled" raw) in
      let mode = read_mode (get "mode" raw) (if enabled then pointer_summary else off) in
      elim (Bool-cases (explicit_disable raw)) [
        | inl d ↦ subst IsSafe (ok-injective (rw d at h)) (disabled_policy-IsSafe source)
        | inr nd ↦
            let h1 = rw nd at h in
            elim (Bool-cases (is_empty_dict raw)) [
              | inl e ↦ subst IsSafe (ok-injective (rw e at h1)) (disabled_policy-IsSafe "off")
              | inr ne ↦
                  let h2 = rw ne at h1 in
                  elim (Bool-cases (not enabled || is_off mode)) [
                    | inl o ↦
                        subst IsSafe (ok-injective (rw o at h2)) (disabled_policy-IsSafe source)
                    | inr no_ ↦ enabled_policy-IsSafe raw mode source (ground arith) (rw no_ at h2)
                  ]
            ]
      ]

  without_enabled :
      (raw : Fields) (source : String)
      → is_empty_dict raw ≡ false
      → find "enabled" raw ≡ none
      → explicit_disable raw ≡ false
      → normalize_policy raw source ≡ ok (disabled_policy source)
  unfolding normalize_policy
  without_enabled raw source given missing plain =
      rw (plain, given, get-missing "enabled" raw missing) refl

  -- a binding that adds nothing to a listener that disables
  disabled_stays :
      (global_policy binding_policy : Json)
      → (is_empty_dict (canonical_mapping binding_policy)
          || explicit_disable (canonical_mapping binding_policy))
        ≡ true
      → (p : IngressDigestPolicy) × (resolve_ingress_digest_policy global_policy
            (obj disabled_mapping)
            binding_policy
          ≡ ok p)
        × (active p ≡ false)
  unfolding resolve_ingress_digest_policy
  disabled_stays global_policy binding_policy h =
      elim (Bool-cases (is_empty_dict (canonical_mapping binding_policy))) [
        | inl none_set ↦ (disabled_policy "listener", rw none_set refl, refl)
        | inr some_set ↦
            let disables = rw some_set at h in
            (disabled_policy "source_binding", rw (some_set, disables) refl, refl)
      ]

  -- A listener's override that sets some keys and leaves `enabled` out is stored as one that disables:
  -- the missing key does not inherit. Under the stored override an event gets no digest whatever the
  -- global default says, unless its source binding has an override of its own that does not disable.
  pub partial_override_disables :
      (override global_policy binding_policy : Json)
      → is_empty_dict (canonical_mapping override) ≡ false
      → find "enabled" (canonical_mapping override) ≡ none
      → (is_empty_dict (canonical_mapping binding_policy)
          || explicit_disable (canonical_mapping binding_policy))
        ≡ true
      → (saved : Fields) × (policy_override_mapping override ≡ ok saved)
        × (p : IngressDigestPolicy) × (resolve_ingress_digest_policy global_policy
              (obj saved)
              binding_policy
            ≡ ok p)
        × (active p ≡ false)
  unfolding policy_override_mapping
  partial_override_disables override global_policy binding_policy given missing adds_none =
      let (p, resolved, off_) = disabled_stays global_policy binding_policy adds_none in
      (
        disabled_mapping,
        rw given (elim (Bool-cases (explicit_disable (canonical_mapping override))) [
          | inl d ↦ rw d refl
          | inr nd ↦ rw (nd, without_enabled _ "override" given missing nd) refl
        ]),
        p,
        resolved,
        off_,
      )
