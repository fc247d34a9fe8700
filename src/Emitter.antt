-- ===== src/Emitter.antt =====
-- async_threads/emitter.py: the producer's side. Envelope, signature, and the meaning of a response.
pub mod Responses
use hermes_plugin_async_thre.Prelude.{
  Bool, List, Option, String, [], elem, false, if◌then◌else◌, leb, ltb, nat_eq, none, not, some,
  true, ℕ, ◌&&◌, ◌<>◌, ◌==◌, ◌||◌, ◌∷◌,
}
use hermes_plugin_async_thre.Python.Except.{Except, ok, raise, raise_if, validation, ◌>>=◌, ◌>>◌}
use hermes_plugin_async_thre.Python.Json.{Fields, Json, end, field, fields?, get, obj, put, text}
use hermes_plugin_async_thre.Python.Runtime.{Runtime}
use hermes_plugin_async_thre.Python.Values.{str_or_empty}
use hermes_plugin_async_thre.Security.{
  EnvelopeFields, event_version, extract_envelope_fields, is_missing,
}
use hermes_plugin_async_thre.Workflow.Transition.{or_text}

-- The status of an HTTP response; `None` where the request did not get that far.
abbrev pub success_receiver_statuses : List String
success_receiver_statuses = "delivered" ∷ "accepted" ∷ "queued" ∷ "duplicate" ∷ []

abbrev pub is_retryable_http_status : ℕ → Bool
is_retryable_http_status n =
    nat_eq n 408
    || nat_eq n 409
    || nat_eq n 425
    || nat_eq n 429
    || nat_eq n 500
    || nat_eq n 502
    || nat_eq n 503
    || nat_eq n 504

pub record EmitResult : Type 0 where
  pub success : Bool
  pub retryable : Bool
  pub duplicate : Bool
  pub http_status : Option ℕ
  pub receiver_status : String
  pub body : String
  pub error : String

-- The keys that `extra` cannot set.
abbrev pub protected_keys : List String
protected_keys =
    "version" ∷ "eventId" ∷ "eventType" ∷ "producer" ∷ "occurredAt" ∷ "asyncThread" ∷ []

abbrev pub merge_extra : Fields → Fields → Fields
merge_extra event end = event
merge_extra event (field k v extra) =
    merge_extra (if elem k protected_keys then event else put k v event) extra

-- `subject` is set only where it is not `None`
unfoldable pub with_subject : Option Fields → Fields → Fields
with_subject none event = event
with_subject (some subject) event = put "subject" (obj subject) event

module _ ⦃py : Runtime⦄ where
  -- `validate_event_envelope(event)`, with no scope to check and no replay window
  unfoldable pub validate_event_envelope : Fields → Except EnvelopeFields
  unfolding extract_envelope_fields
  validate_event_envelope event = do
    fields ← extract_envelope_fields event
    raise_if (is_missing (get "occurredAt" event)) (validation "missing occurredAt")
    ok fields

  -- the dict that `build_event_envelope` validates
  unfoldable pub envelope_of :
      String
      → String
      → String
      → String
      → String
      → Fields
      → Option Fields
      → Json
      → String
      → Fields
      → Fields
  unfolding with_subject
  envelope_of thread_key producer_id event_id event_type summary payload subject occurred_at
        tail_mode extra =
      merge_extra
        (with_subject subject (
          field "version" (text event_version) (
            field "eventId" (text event_id) (
              field "eventType" (text event_type) (
                field "producer" (obj (field "id" (text producer_id) end)) (
                  field "occurredAt" occurred_at (
                    field "asyncThread" (obj (field "threadKey" (text thread_key) end)) (
                      field "summary" (text summary) (
                        field "tailMode" (text (or_text tail_mode "compact"))
                          (field "payload" (obj payload) end))))))))))
        extra

  -- `build_event_envelope(...)`; `occurred_at` is the argument, or the time where it is `None`
  unfoldable pub build_event_envelope :
      String
      → String
      → String
      → String
      → String
      → Fields
      → Option Fields
      → Json
      → String
      → Fields
      → Except Fields
  unfolding envelope_of validate_event_envelope
  build_event_envelope thread_key producer_id event_id event_type summary payload subject
        occurred_at tail_mode extra =
      let event =
        envelope_of thread_key producer_id event_id event_type summary payload subject occurred_at
          tail_mode extra in
      do _fields ← validate_event_envelope event; ok event

  unfoldable pub sign_bytes : List ℕ → String → Except String
  sign_bytes raw_body secret =
      if secret == ""
      then raise (validation "ATH secret is required")
      else ok ("sha256=" <> py.hmac_hex secret raw_body)

  -- the `status` of a response body that is a JSON object
  unfoldable pub body_status : Option Json → String
  unfolding str_or_empty
  body_status none = ""
  body_status (some v) = elim (fields? v) [ none ↦ "" | some d ↦ str_or_empty (get "status" d) ]

  -- `classify_receiver_response`; `parsed` is the body as `json.loads` reads it, `body` and `error`
  -- are the texts after redaction
  unfoldable pub classify_receiver_response : Option ℕ → Option Json → String → String → EmitResult
  unfolding body_status
  classify_receiver_response http_status parsed body error =
      let parsed_status : String = body_status parsed in
      let receiver_status : String =
        if not (parsed_status == "")
        then parsed_status
        else elim http_status [ none ↦ "transport_error" | some _ ↦ "" ] in
      let success : Bool = elim http_status [
        | none ↦ false
        | some n ↦ leb 200 n && ltb n 300 && elem receiver_status success_receiver_statuses
      ] in
      let retryable : Bool = elim http_status [
        | none ↦ true
        | some n ↦ is_retryable_http_status n
      ] in
      record {
        success = success;
        retryable = if success then false else retryable;
        duplicate = receiver_status == "duplicate";
        http_status = http_status;
        receiver_status = receiver_status;
        body = body;
        error = error;
      }

  -- `exit_code_for_result`
  unfoldable pub exit_code_for_result : EmitResult → ℕ
  exit_code_for_result r = if r.success then 0 else if r.retryable then 75 else 1
