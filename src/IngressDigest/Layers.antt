-- ===== src/IngressDigest/Layers.antt =====
-- Which layer of the ingress-digest configuration decides.
use hermes_plugin_async_thre.Prelude.{
  Bool-cases, Option, String, ap, arith, false, if◌then◌else◌, inl, inr, none, refl, some, sym,
  true, ◌∙◌, ◌≡◌,
}
use hermes_plugin_async_thre.IngressDigest.Normalize.{
  canonical_fields, canonical_key, canonical_mapping, explicit_disable, normalize_policy,
}
use hermes_plugin_async_thre.IngressDigest.Policy.{disabled_policy}
use hermes_plugin_async_thre.IngressDigest.Resolve.{
  Resolution, add_layer, resolve_ingress_digest_policy,
}
use hermes_plugin_async_thre.Python.Except.{ok}
use hermes_plugin_async_thre.Python.Json.{
  Fields, Json, arr, bool, end, field, find, int, is_empty_dict, merge, null, obj, put, real, text,
}
use hermes_plugin_async_thre.Python.Keys.{
  IsDict, find-merge, merge-nonempty_right, or_else, put-IsDict,
}
use hermes_plugin_async_thre.Python.Runtime.{Runtime}

canonical_fields-IsDict : (out d : Fields) → IsDict out → IsDict (canonical_fields out d)
unfolding canonical_fields
canonical_fields-IsDict out end h = h
canonical_fields-IsDict out (field k v d) h =
    canonical_fields-IsDict (put (canonical_key k) v out) d (put-IsDict _ v out h)

canonical_mapping-IsDict : (v : Json) → IsDict (canonical_mapping v)
unfolding canonical_mapping
canonical_mapping-IsDict (obj d) = canonical_fields-IsDict end d tt
canonical_mapping-IsDict null = tt
canonical_mapping-IsDict (bool b) = tt
canonical_mapping-IsDict (int i) = tt
canonical_mapping-IsDict (real r) = tt
canonical_mapping-IsDict (text s) = tt
canonical_mapping-IsDict (arr xs) = tt

find_empty : (k : String) (d : Fields) → is_empty_dict d ≡ true → find k d ≡ none
find_empty k end h = refl
find_empty k (field j v d) h = cc

or_else-none : (o : Option Json) → or_else o none ≡ o
or_else-none none = refl
or_else-none (some v) = refl

-- the loop before its first layer
abbrev start : Resolution
start = record { merged = end; source = "off"; disabled_source = "off"; pending = false }

module _ ⦃py : Runtime⦄ where
  -- what a layer contributes: nothing where it is absent or disables
  abbrev pub contributed : Json → Fields
  contributed layer =
      if explicit_disable (canonical_mapping layer) then end else canonical_mapping layer

  merged-add_layer :
      (r : Resolution) (name : String) (layer : Json) (k : String)
      → find k (add_layer r name layer).merged
        ≡ or_else (find k (contributed layer)) (find k r.merged)
  unfolding add_layer
  merged-add_layer r name layer k = elim (Bool-cases (explicit_disable (canonical_mapping layer))) [
    | inl d ↦ ground arith
    | inr nd ↦ elim (Bool-cases (is_empty_dict (canonical_mapping layer))) [
      | inl e ↦ rw (nd, e) (ap (λ o. or_else o (find k r.merged)) (sym (find_empty k _ e)))
      | inr ne ↦
          rw (nd, ne)
            (find-merge k r.merged (canonical_mapping layer) (canonical_mapping-IsDict layer))
    ]
  ]

  -- An explicit disable of the source binding turns the digest off, whatever the listener and the
  -- global configuration say. A binding that sets keys without disabling decides those keys; for each
  -- other key the listener decides, and then the global configuration, of which a layer that disables
  -- contributes nothing.
  pub source_binding_decides :
      (global_policy listener_policy binding_policy : Json)
      → is_empty_dict (canonical_mapping binding_policy) ≡ false
      → (explicit_disable (canonical_mapping binding_policy) ≡ true
          → resolve_ingress_digest_policy global_policy listener_policy binding_policy
            ≡ ok (disabled_policy "source_binding"))
        × (explicit_disable (canonical_mapping binding_policy) ≡ false
            → (merged : Fields) × (resolve_ingress_digest_policy global_policy listener_policy
                  binding_policy
                ≡ normalize_policy merged "source_binding")
              × ((k : String)
                  → find k merged
                    ≡ or_else (find k (canonical_mapping binding_policy)) (
                        or_else
                          (find k (contributed listener_policy))
                          (find k (contributed global_policy)))))
  unfolding resolve_ingress_digest_policy
  source_binding_decides g l b given =
      let raw = canonical_mapping b in
      let first_ = add_layer start "global" g in
      let below = add_layer first_ "listener" l in
      (
        λ d. rw (given, d) refl,
        λ nd. (
          merge below.merged raw,
          rw (given, nd, merge-nonempty_right below.merged raw given) refl,
          λ k.
              find-merge k below.merged raw (canonical_mapping-IsDict b)
              ∙ ap (or_else (find k raw)) (
                  merged-add_layer first_ "listener" l k
                  ∙ ap (or_else (find k (contributed l)))
                      (merged-add_layer start "global" g k ∙ or_else-none _)),
        ),
      )
