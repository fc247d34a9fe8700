-- ===== src/Security.antt =====
-- async_threads/security.py: validation of an incoming request, before anything is looked up.
pub mod Signature
pub mod Envelope
use Prim.Native.Char.{code}
use hermes_plugin_async_thre.Prelude.{
  Bool, List, Option, String, [], false, if◌then◌else◌, length, ltb, nat_eq, none, not, pos, some,
  true, ℕ, ℤ, ◌&&◌, ◌<>◌, ◌==◌, ◌||◌, ◌∷◌,
}
use hermes_plugin_async_thre.Python.Except.{
  Except, ok, raise, raise_if, type_error, validation, ◌>>=◌, ◌>>◌,
}
use hermes_plugin_async_thre.Python.Json.{
  Fields, Json, bool, fields?, find, get, int, null, obj, real, text,
}
use hermes_plugin_async_thre.Python.Runtime.{Runtime}
use hermes_plugin_async_thre.Python.Text.{clip, drop_chars, has_prefix, is_ascii, strip}
use hermes_plugin_async_thre.Python.Values.{str_or_empty, to_str}

abbrev pub event_version : String
event_version = "async-thread-event/v1"

-- the dict that `extract_envelope_fields` returns
pub record EnvelopeFields : Type 0 where
  pub event_id : String
  pub event_type : String
  pub producer_id : String
  pub thread_key : String
  pub summary : String

abbrev pub is_missing : Json → Bool
is_missing null = true
is_missing (text s) = s == ""
is_missing _ = false

module _ ⦃py : Runtime⦄ where
  unfoldable pub parse_json_body : List ℕ → ℕ → Except Fields
  parse_json_body raw_body max_bytes =
      if ltb max_bytes (length raw_body)
      then raise (validation "body too large")
      else elim (py.json_loads raw_body) [
        | none ↦ raise (validation "invalid json")
        | some data_value ↦ elim (fields? data_value) [
          | none ↦ raise (validation "json body must be an object")
          | some d ↦ ok d
        ]
      ]

  -- `signature_header(headers)`; `headers` is `headers.get`
  unfoldable pub signature_header : (String → String) → String
  unfolding strip
  signature_header headers =
      if not (headers "X-Hermes-Signature-256" == "")
      then strip (headers "X-Hermes-Signature-256")
      else if not (headers "X-Hermes-Signature" == "")
      then strip (headers "X-Hermes-Signature")
      else if not (headers "X-Hub-Signature-256" == "")
      then strip (headers "X-Hub-Signature-256")
      else ""

  -- `supplied` without the prefix `sha256=`
  unfoldable pub bare_digest : String → String
  unfolding strip has_prefix drop_chars
  bare_digest supplied =
      let lowered = py.lower (strip supplied) in
      if has_prefix "sha256=" lowered then drop_chars 7 lowered else lowered

  -- `hmac.compare_digest` raises `TypeError` on a text that is not ASCII.
  unfoldable pub compare_digest : String → String → Except Bool
  unfolding is_ascii
  compare_digest a b = if is_ascii a && is_ascii b then ok (a == b) else raise type_error

  unfoldable pub verify_hmac_signature : List ℕ → String → String → Except Bool
  unfolding bare_digest compare_digest
  verify_hmac_signature raw_body secret supplied =
      let digest = bare_digest supplied in
      if secret == "" || supplied == ""
      then ok false
      else if digest == ""
      then ok false
      else compare_digest (py.hmac_hex secret raw_body) digest

-- `event_field(data, "a.b")`, with the path split at its dots
unfoldable pub event_field : String → Json → List String → Except Json
event_field path cur [] =
    if is_missing cur then raise (validation ("missing field: " <> path)) else ok cur
event_field path cur (part ∷ parts) = elim (fields? cur) [
  | none ↦ raise (validation ("missing field: " <> path))
  | some d ↦ elim (find part d) [
    | none ↦ raise (validation ("missing field: " <> path))
    | some next ↦ event_field path next parts
  ]
]

module _ ⦃py : Runtime⦄ where
  -- `extract_envelope_fields(data)`
  unfoldable pub extract_envelope_fields : Fields → Except EnvelopeFields
  unfolding event_field clip to_str str_or_empty
  extract_envelope_fields d = do
    version ← event_field "version" (obj d) ("version" ∷ [])
    raise_if (not (to_str version == event_version)) (validation "unsupported version")
    event_id ← event_field "eventId" (obj d) ("eventId" ∷ [])
    event_type ← event_field "eventType" (obj d) ("eventType" ∷ [])
    producer_id ← event_field "producer.id" (obj d) ("producer" ∷ "id" ∷ [])
    thread_key ← event_field "asyncThread.threadKey" (obj d) ("asyncThread" ∷ "threadKey" ∷ [])
    ok (record {
      event_id = clip 200 (to_str event_id);
      event_type = clip 200 (to_str event_type);
      producer_id = clip 200 (to_str producer_id);
      thread_key = clip 200 (to_str thread_key);
      summary = clip 2000 (str_or_empty (get "summary" d));
    })

  -- the text that `fromisoformat` is given: a final `Z` is the offset of UTC
  unfoldable pub iso_zone : String → String
  iso_zone String.[] = ""
  iso_zone (String.◌∷◌ c s) =
      let rest = iso_zone s in
      if s == "" && nat_eq (code c) b'Z' then "+00:00" else String.◌∷◌ c rest

  -- the timestamp of `occurredAt`; `none` where the source's `try` ends in an exception
  unfoldable pub occurred_timestamp : Json → Option String
  unfolding iso_zone strip to_str
  occurred_timestamp (int i) = py.real_of_int i
  occurred_timestamp (bool true) = py.real_of_int (pos 1)
  occurred_timestamp (bool false) = py.real_of_int (pos 0)
  occurred_timestamp (real r) = some r
  occurred_timestamp (text s) = elim (py.real_of_text s) [
    | some r ↦ some r
    | none ↦ py.timestamp_of_iso (iso_zone (strip s))
  ]
  occurred_timestamp v = py.timestamp_of_iso (iso_zone (strip (to_str v)))

  -- `validate_timestamp(occurred_at, now=now, replay_window_seconds=window)`
  unfoldable pub validate_timestamp : Json → String → ℤ → Except (Unit {0})
  unfolding occurred_timestamp
  validate_timestamp occurred_at now window =
      if is_missing occurred_at
      then raise (validation "missing occurredAt")
      else elim (occurred_timestamp occurred_at) [
        | none ↦ raise (validation "invalid occurredAt")
        | some ts ↦
            if not (py.is_finite ts)
            then raise (validation "invalid occurredAt")
            else if py.outside_window now ts window
            then raise (validation "event timestamp outside replay window")
            else ok tt
      ]
