-- ===== src/IngressDigest/Payload.antt =====
-- What of an event is stored locally, and the digest made of it: the second half of
-- async_threads/ingress_digest.py. `max_chars` is never negative in the source.
use hermes_plugin_async_thre.Prelude.{
  Bool, List, String, [], if◌then◌else◌, leb, ltb, none, pos, some, suc, true, zero, ℕ, ◌+◌, ◌-◌,
  ◌<>◌, ◌==◌, ◌∷◌,
}
use hermes_plugin_async_thre.Privacy.{redact_secret_text, sanitize_untrusted_value}
use hermes_plugin_async_thre.Privacy.Depth.{depth}
use hermes_plugin_async_thre.Python.Json.{
  Fields, Items, Json, arr, bool, cons, end, field, fields?, find, get, int, mapping, nil, null,
  obj, put, real, text, texts,
}
use hermes_plugin_async_thre.Python.Runtime.{Runtime}
use hermes_plugin_async_thre.Python.Text.{clip, text_length}

abbrev pub payload_keys : List String
payload_keys =
    "summary" ∷ "subject" ∷ "payload" ∷ "workflowId" ∷ "workflow" ∷ "stage" ∷ "artifact"
    ∷ "candidate" ∷ "evidence" ∷ "refs" ∷ "loop" ∷ "step" ∷ "correlation" ∷ "nextExpectedSignal"
    ∷ "seriesKey" ∷ []

abbrev pub routing_keys : List String
routing_keys =
    "workflowId" ∷ "workflow" ∷ "stage" ∷ "artifact" ∷ "candidate" ∷ "evidence" ∷ "seriesKey" ∷ []

-- the entries of `data` under some keys, in the order of the keys
abbrev pub select_keys : List String → Fields → Fields
select_keys [] d = end
select_keys (k ∷ ks) d =
    let rest = select_keys ks d in elim (find k d) [ none ↦ rest | some v ↦ field k v rest ]

-- `_bounded_raw_value`, which cuts but does not redact
unfoldable mutual
  unfolding clip

  pub bound_raw : ℕ → Json → Json
  bound_raw depth (arr xs) =
      let items = bound_raw_items (depth + 1) 100 xs in
      if ltb 8 depth then text "<max-depth>" else arr items
  bound_raw depth (obj d) =
      let cut = bound_raw_fields (depth + 1) 100 d end in
      if ltb 8 depth then text "<max-depth>" else obj cut
  bound_raw depth (text s) = if ltb 8 depth then text "<max-depth>" else text (clip 4000 s)
  bound_raw depth null = if ltb 8 depth then text "<max-depth>" else null
  bound_raw depth (bool b) = if ltb 8 depth then text "<max-depth>" else bool b
  bound_raw depth (int i) = if ltb 8 depth then text "<max-depth>" else int i
  bound_raw depth (real r) = if ltb 8 depth then text "<max-depth>" else real r

  pub bound_raw_items : ℕ → ℕ → Items → Items
  bound_raw_items depth room nil = nil
  bound_raw_items depth zero (cons x xs) = nil
  bound_raw_items depth (suc room) (cons x xs) =
      cons (bound_raw depth x) (bound_raw_items depth room xs)

  pub bound_raw_fields : ℕ → ℕ → Fields → Fields → Fields
  bound_raw_fields depth room end cut = cut
  bound_raw_fields depth zero (field k v d) cut = cut
  bound_raw_fields depth (suc room) (field k v d) cut =
      bound_raw_fields depth room d (put (clip 200 k) (bound_raw depth v) cut)

module _ ⦃py : Runtime⦄ where
  -- `_bound_json_mapping`. (`json.dumps` raises for no value that was decoded from JSON.)
  unfoldable pub bound_json_mapping : Json → ℕ → Fields
  unfolding redact_secret_text clip text_length
  bound_json_mapping value max_chars =
      let payload : Fields = elim (fields? value) [ some d ↦ d | none ↦ field "value" value end ] in
      let rendered = py.json_dumps_spaced (obj payload) in
      if leb (text_length rendered) max_chars
      then payload
      else field "truncated" (bool true) (
          field "chars" (int (pos (text_length rendered))) (
            field "sha256Prefix" (text (clip 16 (py.sha256_hex rendered))) (
              field "preview"
                (text (
                  redact_secret_text (clip (max_chars - 200) rendered) max_chars (max_chars - 200)))
                end)))

  unfoldable pub bounded_event_payload : Fields → ℕ → Bool → Fields
  unfolding bound_json_mapping sanitize_untrusted_value bound_raw
  bounded_event_payload d max_chars is_redacted =
      let event = obj (select_keys payload_keys d) in
      bound_json_mapping (if is_redacted then sanitize_untrusted_value event else bound_raw 0 event)
        max_chars

  unfoldable pub local_digest : Fields → String → String → String → ℕ → Fields
  unfolding bound_json_mapping sanitize_untrusted_value redact_secret_text
  local_digest d event_type producer_id summary max_chars =
      let shown = if summary == "" then producer_id <> " emitted " <> event_type else summary in
      field "status" (text "model_unavailable_pointer_only") (
        field "summary"
          (text
            (redact_secret_text shown max_chars (if leb max_chars 1000 then max_chars else 1000)))
          (field "subjects"
            (obj (
              bound_json_mapping (sanitize_untrusted_value (obj (mapping (get "subject" d)))) 2000))
            (field "routingFacts"
              (obj (
                bound_json_mapping (sanitize_untrusted_value (obj (select_keys routing_keys d)))
                  2000))
              (field "safetyNotes"
                (arr (
                  texts (
                    "digest is context hygiene only" ∷ "payload remains untrusted data"
                    ∷ "no model route was invoked" ∷ [])))
                end))))

  -- `build_pointer_id`; the four parts are joined by NUL
  unfoldable pub build_pointer_id : String → String → String → String → String
  unfolding clip
  build_pointer_id owner_user_id thread_key producer_id event_id =
      "athp_"
      <> clip 24 (
          py.sha256_hex
            (owner_user_id <> "\0" <> thread_key <> "\0" <> producer_id <> "\0" <> event_id))
