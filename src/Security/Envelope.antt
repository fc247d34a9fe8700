-- ===== src/Security/Envelope.antt =====
-- What a receiver reads out of an envelope that the producer's helper built.
use mathlib.Core.Path.{subst}
use hermes_plugin_async_thre.Prelude.{
  Bool-cases, Option, String, [], ap, arith, elem, eq_iff, false, inl, inr, none, refl, some, sym,
  true, ◌==◌, ◌∙◌, ◌∷◌, ◌≡◌,
}
use hermes_plugin_async_thre.Adapter.Receive.{validated}
use hermes_plugin_async_thre.Emitter.{
  build_event_envelope, envelope_of, merge_extra, protected_keys, validate_event_envelope,
  with_subject,
}
use hermes_plugin_async_thre.Python.Dicts.{find-put_ne}
use hermes_plugin_async_thre.Python.Except.{bind-eq-ok, ok, ok-injective, raise_if-eq-ok}
use hermes_plugin_async_thre.Python.Json.{Fields, Json, end, field, find, null, obj, put, text}
use hermes_plugin_async_thre.Python.Runtime.{Runtime}
use hermes_plugin_async_thre.Python.Text.{clip}
use hermes_plugin_async_thre.Python.Values.{to_str}
use hermes_plugin_async_thre.Security.{EnvelopeFields, event_field, extract_envelope_fields}

find-merge_extra :
    (k : String) (event extra : Fields)
    → elem k protected_keys ≡ true
    → find k (merge_extra event extra) ≡ find k event
find-merge_extra k event end h = refl
find-merge_extra k event (field j v extra) h = elim (Bool-cases (elem j protected_keys)) [
  | inl guarded ↦ rw guarded (find-merge_extra k event extra h)
  | inr free ↦ rw free (
      find-merge_extra k (put j v event) extra h
      ∙ find-put_ne j k v event (ground (arith, eq_iff k j)))
]

find-with_subject :
    (k : String) (subject : Option Fields) (event : Fields)
    → (k == "subject") ≡ false
    → find k (with_subject subject event) ≡ find k event
unfolding with_subject
find-with_subject k none event h = refl
find-with_subject k (some subject) event h = find-put_ne "subject" k (obj subject) event h

event_field_one :
    (path key : String) (d : Fields) {v : Json}
    → event_field path (obj d) (key ∷ []) ≡ ok v
    → find key d ≡ some v
unfolding event_field
event_field_one path key d h = ground arith

event_field_two :
    (path key inner : String) (d e : Fields) {v : Json}
    → find key d ≡ some (obj e)
    → event_field path (obj d) (key ∷ inner ∷ []) ≡ ok v
    → find inner e ≡ some v
unfolding event_field
event_field_two path key inner d e found h = ground arith

module _ ⦃py : Runtime⦄ where
  -- the parts of a successful extraction
  record Extracted (d : Fields) (fields : EnvelopeFields) : Type 0 where
    event_id : Json
    event_id_read : event_field "eventId" (obj d) ("eventId" ∷ []) ≡ ok event_id
    event_type : Json
    event_type_read : event_field "eventType" (obj d) ("eventType" ∷ []) ≡ ok event_type
    producer_id : Json
    producer_id_read : event_field "producer.id" (obj d) ("producer" ∷ "id" ∷ []) ≡ ok producer_id
    thread_key : Json
    thread_key_read :
        event_field "asyncThread.threadKey" (obj d) ("asyncThread" ∷ "threadKey" ∷ [])
        ≡ ok thread_key
    same_event_id : fields.event_id ≡ clip 200 (to_str event_id)
    same_event_type : fields.event_type ≡ clip 200 (to_str event_type)
    same_producer_id : fields.producer_id ≡ clip 200 (to_str producer_id)
    same_thread_key : fields.thread_key ≡ clip 200 (to_str thread_key)

  extracted :
      (d : Fields) {fields : EnvelopeFields}
      → extract_envelope_fields d ≡ ok fields
      → Extracted d fields
  unfolding extract_envelope_fields
  extracted d h =
      let (v, _, h1) = bind-eq-ok (event_field "version" (obj d) ("version" ∷ [])) _ h in
      let (_, h2) = raise_if-eq-ok _ _ _ h1 in
      let (a, ra, h3) = bind-eq-ok (event_field "eventId" (obj d) ("eventId" ∷ [])) _ h2 in
      let (b, rb, h4) = bind-eq-ok (event_field "eventType" (obj d) ("eventType" ∷ [])) _ h3 in
      let (c, rc, h5) =
        bind-eq-ok (event_field "producer.id" (obj d) ("producer" ∷ "id" ∷ [])) _ h4 in
      let (e, re, h6) =
        bind-eq-ok (event_field "asyncThread.threadKey" (obj d) ("asyncThread" ∷ "threadKey" ∷ []))
          _ h5 in
      record {
        event_id = a;
        event_id_read = ra;
        event_type = b;
        event_type_read = rb;
        producer_id = c;
        producer_id_read = rc;
        thread_key = e;
        thread_key_read = re;
        same_event_id = ap (λ (x : EnvelopeFields). x.event_id) (sym (ok-injective h6));
        same_event_type = ap (λ (x : EnvelopeFields). x.event_type) (sym (ok-injective h6));
        same_producer_id = ap (λ (x : EnvelopeFields). x.producer_id) (sym (ok-injective h6));
        same_thread_key = ap (λ (x : EnvelopeFields). x.thread_key) (sym (ok-injective h6));
      }

  -- The fields of `event` are the four texts, cut.
  abbrev ReadsBack : String → String → String → String → Fields → Type 0
  ReadsBack thread_key producer_id event_id event_type event =
      (fields : EnvelopeFields) × (extract_envelope_fields event ≡ ok fields)
      × (fields.thread_key ≡ clip 200 thread_key)
      × (fields.producer_id ≡ clip 200 producer_id)
      × (fields.event_id ≡ clip 200 event_id)
      × (fields.event_type ≡ clip 200 event_type)

  read_text :
      (d : Fields) (k s : String) {v : Json}
      → find k d ≡ some (text s)
      → find k d ≡ some v
      → clip 200 (to_str v) ≡ clip 200 s
  unfolding to_str
  read_text d k s found same =
      ap (λ o. clip 200 (to_str (elim o [ none ↦ null | some w ↦ w ]))) (sym same ∙ found)

  module _ (t p i e s : String) (payload : Fields) (subject : Option Fields) (o : Json)
      (tail_mode : String) (extra : Fields) where
    abbrev env : Fields
    env = envelope_of t p i e s payload subject o tail_mode extra

    extracted-ReadsBack :
        {fields : EnvelopeFields} → extract_envelope_fields env ≡ ok fields → ReadsBack t p i e env
    unfolding envelope_of
    extracted-ReadsBack {fields} h =
        let x = extracted env h in
        let at_id = find-merge_extra "eventId" _ extra refl ∙ find-with_subject _ subject _ refl in
        let at_type =
          find-merge_extra "eventType" _ extra refl ∙ find-with_subject _ subject _ refl in
        let at_producer =
          find-merge_extra "producer" _ extra refl ∙ find-with_subject _ subject _ refl in
        let at_thread =
          find-merge_extra "asyncThread" _ extra refl ∙ find-with_subject _ subject _ refl in
        (
          fields,
          h,
          x.same_thread_key
              ∙ read_text (field "threadKey" (text t) end) "threadKey" t refl
                  (event_field_two _ "asyncThread" "threadKey" env _ at_thread x.thread_key_read),
          x.same_producer_id
              ∙ read_text (field "id" (text p) end) "id" p refl
                  (event_field_two _ "producer" "id" env _ at_producer x.producer_id_read),
          x.same_event_id
              ∙ read_text env "eventId" i at_id (event_field_one _ "eventId" env x.event_id_read),
          x.same_event_type
              ∙ read_text env "eventType" e at_type
                  (event_field_one _ "eventType" env x.event_type_read),
        )

  -- Of an envelope that `build_event_envelope` returns, the receiver reads back the four identifying
  -- texts that it was built from, each cut to 200 characters, with or without a subject, in any tail
  -- mode, whatever the further keys in `extra`.
  pub extract-build_event_envelope :
      (thread_key producer_id event_id event_type summary : String) (payload : Fields)
      (subject : Option Fields) (occurred_at : Json) (tail_mode : String) (extra : Fields)
      {event : Fields}
      → build_event_envelope thread_key producer_id event_id event_type summary payload subject
          occurred_at tail_mode extra
        ≡ ok event
      → (fields : EnvelopeFields) × (extract_envelope_fields event ≡ ok fields)
        × (fields.thread_key ≡ clip 200 thread_key)
        × (fields.producer_id ≡ clip 200 producer_id)
        × (fields.event_id ≡ clip 200 event_id)
        × (fields.event_type ≡ clip 200 event_type)
  unfolding build_event_envelope
  extract-build_event_envelope t p i e s payload subject o tail_mode extra {event} h =
      let built = env t p i e s payload subject o tail_mode extra in
      let (f, validated, same) = bind-eq-ok (validate_event_envelope built) (λ _. ok built) h in
      let (g, read, _) = bind-eq-ok (extract_envelope_fields built) _ validated in
      subst (ReadsBack t p i e) (ok-injective same)
        (extracted-ReadsBack t p i e s payload subject o tail_mode extra read)
