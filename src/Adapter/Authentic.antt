-- ===== src/Adapter/Authentic.antt =====
-- A request without a right signature does nothing.
use hermes_plugin_async_thre.Prelude.{
  Option-cases, ap, arith, false, inl, inr, refl, some, true, ◌∙◌, ◌≡◌, ◌⊎◌,
}
use hermes_plugin_async_thre.Adapter.Receive.{
  authenticated, handle_event, reply_to_exception, validated,
}
use hermes_plugin_async_thre.Adapter.State.{Config, Gateway, Receiver, Request, succeeds}
use hermes_plugin_async_thre.Python.Except.{Exc, Except-cases, bind-eq-ok, ok, ok-injective, ◌>>=◌}
use hermes_plugin_async_thre.Python.Json.{Fields, get}
use hermes_plugin_async_thre.Python.Runtime.{Runtime}
use hermes_plugin_async_thre.Registry.Handles.{get_handle}
use hermes_plugin_async_thre.Registry.Rows.{Handle}
use hermes_plugin_async_thre.Security.{
  EnvelopeFields, extract_envelope_fields, parse_json_body, signature_header, validate_timestamp,
  verify_hmac_signature,
}

-- The request is valid, names a listener, and its body is signed with that listener's secret.
pub record IsAuthentic ⦃py : Runtime⦄ (cfg : Config) (g : Gateway) (request : Request)
    (st : Receiver) : Type 0 where
  pub body : Fields
  pub fields : EnvelopeFields
  pub handle : Handle
  pub is_valid : validated cfg g request ≡ ok (body, fields)
  pub is_known : get_handle fields.thread_key st.db ≡ some handle
  pub is_signed :
      verify_hmac_signature request.raw handle.secret (signature_header request.headers) ≡ ok true

pub exception_fails : (e : Exc) → succeeds (reply_to_exception e) ≡ false
unfolding succeeds reply_to_exception
exception_fails e = ground arith

module _ ⦃py : Runtime⦄ (cfg : Config) (g : Gateway) where
  -- What `handle_event` does is decided by these four cases.
  pub handle_event-cases :
      (request : Request) (st : Receiver)
      → ((a : IsAuthentic cfg g request st) × (handle_event cfg g request st
            ≡ authenticated cfg g a.handle a.body a.fields st))
        ⊎ (((handle_event cfg g request st).1 ≡ st)
            × (succeeds (handle_event cfg g request st).0 ≡ false))
  unfolding handle_event succeeds
  handle_event-cases request st = elim (Except-cases (validated cfg g request)) [
    | inr (e, v) ↦ inr (rw (handle_event, v) (refl, exception_fails e))
    | inl ((d, fields), v) ↦ elim (Option-cases (get_handle fields.thread_key st.db)) [
      | inl k ↦ inr (rw (handle_event, v) (rw k (refl, refl)))
      | inr (h, k) ↦
          elim (Except-cases
            (verify_hmac_signature request.raw h.secret (signature_header request.headers))) [
              | inr (e, s) ↦ inr (rw (handle_event, v) (rw k (rw s (refl, exception_fails e))))
              | inl (false, s) ↦ inr (rw (handle_event, v) (rw k (rw s (refl, refl))))
              | inl (true, s) ↦ inl (
                record {
                  body = d;
                  fields = fields;
                  handle = h;
                  is_valid = v;
                  is_known = k;
                  is_signed = s;
                },
                rw (handle_event, v) (rw k (rw s refl)),
              )
            ]
    ]
  ]

  pub handle_event-authentic :
      (request : Request) (st : Receiver) (a : IsAuthentic cfg g request st)
      → handle_event cfg g request st ≡ authenticated cfg g a.handle a.body a.fields st
  unfolding handle_event
  handle_event-authentic request st a =
      rw (handle_event, a.is_valid) (rw a.is_known (rw a.is_signed refl))

  -- A request that is not authentic leaves the registry, the buckets, the timers and the gateway as
  -- they were.
  pub unauthentic_changes_nothing :
      (request : Request) (st : Receiver)
      → ¬ (IsAuthentic cfg g request st)
      → (handle_event cfg g request st).1 ≡ st
  unauthentic_changes_nothing request st forged = elim (handle_event-cases request st) [
    | inl (a, e) ↦ elim (forged a) [ ]
    | inr (same, bad) ↦ same
  ]

  -- what a valid request went through
  pub validated-eq-ok :
      (request : Request) (d : Fields) (f : EnvelopeFields)
      → validated cfg g request ≡ ok (d, f)
      → (parse_json_body request.raw cfg.max_body_bytes ≡ ok d)
        × (extract_envelope_fields d ≡ ok f)
        × (validate_timestamp (get "occurredAt" d) g.time cfg.replay_window_seconds ≡ ok tt)
  unfolding validated
  validated-eq-ok request d f h =
      let (d1, parsed, h1) =
        bind-eq-ok (parse_json_body request.raw cfg.max_body_bytes)
          (λ d. extract_envelope_fields d >>= λ f.
            validate_timestamp (get "occurredAt" d) g.time cfg.replay_window_seconds >>= λ checked.
            ok (d, f))
          h in
      let (f1, extracted, h2) =
        bind-eq-ok (extract_envelope_fields d1)
          (λ f.
            validate_timestamp (get "occurredAt" d1) g.time cfg.replay_window_seconds >>= λ checked.
            ok (d1, f))
          h1 in
      let (u, fresh, h3) =
        bind-eq-ok (validate_timestamp (get "occurredAt" d1) g.time cfg.replay_window_seconds)
          (λ checked. ok (d1, f1)) h2 in
      let same_d : d1 ≡ d = ap (λ x. x.0) (ok-injective h3) in
      let same_f : f1 ≡ f = ap (λ x. x.1) (ok-injective h3) in
      (rw⁻¹ same_d parsed, rw⁻¹ same_d (extracted ∙ ap ok same_f), rw⁻¹ same_d fresh)

-- The fields of a request do not depend on the time at which it is read.
pub validated-fields :
    ⦃py : Runtime⦄ (cfg : Config) (g g' : Gateway) (request : Request) (d d' : Fields)
    (f f' : EnvelopeFields)
    → validated cfg g request ≡ ok (d, f)
    → validated cfg g' request ≡ ok (d', f')
    → f ≡ f'
validated-fields cfg g g' request d d' f f' h h' =
    let (p, e, t) = validated-eq-ok cfg g request d f h in
    let (p', e', t') = validated-eq-ok cfg g' request d' f' h' in cc
