-- ===== src/Handoffs/Example.antt =====
-- The example event of a handoff, before the receiver that it is for.
use package.text.Mathlib.TextPositions.{eq_refl}
use mathlib.Core.Path.{subst}
use hermes_plugin_async_thre.Prelude.{
  Bool-cases, List, String, [], arith, elem, false, inl, inr, is_empty, not, refl, sym, true, ◌&&◌,
  ◌<>◌, ◌==◌, ◌||◌, ◌∙◌, ◌∷◌, ◌≡◌,
}
use hermes_plugin_async_thre.Adapter.Receive.{refuses_type}
use hermes_plugin_async_thre.Handoffs.Modes.{select_event_type, select_of}
use hermes_plugin_async_thre.Handoffs.Texts.{minimal_event}
use hermes_plugin_async_thre.Python.Except.{ok}
use hermes_plugin_async_thre.Python.Runtime.{Runtime}
use hermes_plugin_async_thre.Python.Text.{append-eq-nil, clip, strip}
use hermes_plugin_async_thre.Registry.Rows.{Handle}
use hermes_plugin_async_thre.Security.{EnvelopeFields, event_field, extract_envelope_fields}

select_of-allowed :
    (types : List String) (default wanted : String)
    → (is_empty types || elem (select_of types default wanted) types) ≡ true
unfolding select_of
select_of-allowed [] default wanted = refl
select_of-allowed (t ∷ ts) default wanted =
    elim (Bool-cases (not (wanted == "") && elem wanted (t ∷ ts))) [
      | inl e ↦
          let found : elem wanted (t ∷ ts) ≡ true = ground (arith, e) in
          let same : select_of (t ∷ ts) default wanted ≡ wanted = rw e refl in
          subst (λ x. elem x (t ∷ ts) ≡ true) (sym same) found
      | inr e ↦ rw e (rw (eq_refl t) refl)
    ]

module _ ⦃py : Runtime⦄ where
  -- the envelope's fields, where its four texts are neither empty nor too long
  extract-minimal_event :
      (h : Handle) (now t : String)
      → (h.thread_key == "") ≡ false
      → (h.producer_id == "") ≡ false
      → (t == "") ≡ false
      → (fields : EnvelopeFields) × (extract_envelope_fields (minimal_event h now t) ≡ ok fields)
        × (fields.thread_key ≡ clip 200 h.thread_key)
        × (fields.producer_id ≡ clip 200 h.producer_id)
        × (fields.event_type ≡ clip 200 t)
  unfolding extract_envelope_fields minimal_event event_field
  extract-minimal_event h now t keyed produced typed =
      rw (append-eq-nil h.producer_id "-example-001" produced)
        (rw typed (rw produced (rw keyed (_, refl, refl, refl, refl))))

  -- The example event of a handoff passes the receiver's reading of the envelope, names the listener
  -- and its producer, and has a type that the listener takes, if the listener's key, its producer and
  -- the selected type are neither empty nor longer than 200 characters.
  pub handoff_example_is_accepted :
      (h : Handle) (now requested : String)
      → let event_type = select_event_type h requested in
        (h.thread_key == "") ≡ false
        → (h.producer_id == "") ≡ false
        → (event_type == "") ≡ false
        → clip 200 h.thread_key ≡ h.thread_key
        → clip 200 h.producer_id ≡ h.producer_id
        → clip 200 event_type ≡ event_type
        → (fields : EnvelopeFields) × (extract_envelope_fields (minimal_event h now event_type)
            ≡ ok fields)
          × (fields.thread_key ≡ h.thread_key)
          × (fields.producer_id ≡ h.producer_id)
          × (refuses_type h fields ≡ false)
  unfolding select_event_type
  handoff_example_is_accepted h now requested keyed produced typed short_key short_producer
        short_type =
      let event_type = select_event_type h requested in
      let (fields, read, key, producer, type_read) =
        extract-minimal_event h now event_type keyed produced typed in
      let allowed =
        select_of-allowed h.allowed_event_types (h.producer_id <> ".finished") (strip requested) in
      (
        fields,
        read,
        key ∙ short_key,
        producer ∙ short_producer,
        rw (type_read, short_type) (ground (arith, allowed)),
      )
