-- ===== src/Security/Signature.antt =====
-- What an accepted signature means, and that a producer's own signature is accepted.
use hermes_plugin_async_thre.Prelude.{
  Bool-cases, List, String, ap, arith, eq_iff, false, inl, inr, refl, sym, true, ℕ, ◌<>◌, ◌==◌, ◌↔◌,
  ◌∙◌, ◌≡◌, ◌⊎◌,
}
use hermes_plugin_async_thre.Emitter.{sign_bytes}
use hermes_plugin_async_thre.Python.Except.{ok}
use hermes_plugin_async_thre.Python.Runtime.{Runtime}
use hermes_plugin_async_thre.Python.Text.{
  append-eq-nil, drop_chars, drop_chars-append, has_prefix, has_prefix-append, is_ascii,
  prefix-drop_chars, strip, text_length,
}
use hermes_plugin_async_thre.Security.{bare_digest, verify_hmac_signature}

module _ ⦃py : Runtime⦄ where
  -- the guards of `verify_hmac_signature`
  pub verify_hmac_signature_iff :
      (raw : List ℕ) (secret supplied : String)
      → (verify_hmac_signature raw secret supplied ≡ ok true)
        ↔ ((secret == "") ≡ false)
          × ((supplied == "") ≡ false)
          × ((bare_digest supplied == "") ≡ false)
          × (is_ascii (bare_digest supplied) ≡ true)
          × (py.hmac_hex secret raw ≡ bare_digest supplied)
  unfolding verify_hmac_signature
  verify_hmac_signature_iff raw secret supplied = (
    λ h. ground (arith, eq_iff (py.hmac_hex secret raw) (bare_digest supplied)),
    λ h. ground (arith, eq_iff (py.hmac_hex secret raw) (bare_digest supplied)),
  )

  -- The documented form of a hex digest: ASCII, not empty, unchanged by `strip().lower()` behind the
  -- prefix that `sign_bytes` writes.
  pub record IsHexDigest : Type 0 where
    pub ascii : (secret : String) (raw : List ℕ) → is_ascii (py.hmac_hex secret raw) ≡ true
    pub nonempty : (secret : String) (raw : List ℕ) → (py.hmac_hex secret raw == "") ≡ false
    pub plain :
        (secret : String) (raw : List ℕ)
        → py.lower (strip ("sha256=" <> py.hmac_hex secret raw))
          ≡ "sha256=" <> py.hmac_hex secret raw

  bare_digest-signed :
      IsHexDigest
      → (secret : String) (raw : List ℕ)
      → bare_digest ("sha256=" <> py.hmac_hex secret raw) ≡ py.hmac_hex secret raw
  unfolding bare_digest
  bare_digest-signed H secret raw =
      rw (H.plain secret raw, has_prefix-append "sha256=" (py.hmac_hex secret raw))
        (unfold text_length in drop_chars-append "sha256=" (py.hmac_hex secret raw))

  -- What `sign_bytes` of the producer's helper writes for a body and a secret, the receiver accepts
  -- for that body and that secret, if hex digests have their documented form.
  pub verify-sign_bytes :
      IsHexDigest
      → (raw : List ℕ) (secret : String) {signature : String} → sign_bytes raw secret ≡ ok signature
      → verify_hmac_signature raw secret signature ≡ ok true
  unfolding sign_bytes
  verify-sign_bytes H raw secret {signature} h = elim (Bool-cases (secret == "")) [
    | inl empty ↦ ground arith
    | inr given ↦
        let hex = py.hmac_hex secret raw in
        let same : signature ≡ "sha256=" <> hex = ground arith in
        rw same (
          (verify_hmac_signature_iff raw secret ("sha256=" <> hex)).1 (
            rw (bare_digest-signed H secret raw) (
              given,
              append-eq-nil "sha256=" hex refl,
              H.nonempty secret raw,
              H.ascii secret raw,
              refl,
            )))
  ]

  bare_digest-cases :
      (supplied digest : String)
      → bare_digest supplied ≡ digest
      → (py.lower (strip supplied) ≡ "sha256=" <> digest) ⊎ (py.lower (strip supplied) ≡ digest)
  unfolding bare_digest text_length
  bare_digest-cases supplied digest h =
      let lowered = py.lower (strip supplied) in
      elim (Bool-cases (has_prefix "sha256=" lowered)) [
        | inl prefixed ↦
            let cut : drop_chars 7 lowered ≡ digest = rw prefixed at h in
            inl (sym (prefix-drop_chars "sha256=" lowered prefixed) ∙ ap (λ s. "sha256=" <> s) cut)
        | inr bare ↦ inr (rw bare at h)
      ]

  bare_digest-of_form :
      (supplied digest : String)
      → has_prefix "sha256=" digest ≡ false
      → (py.lower (strip supplied) ≡ "sha256=" <> digest) ⊎ (py.lower (strip supplied) ≡ digest)
      → bare_digest supplied ≡ digest
  unfolding bare_digest
  bare_digest-of_form supplied digest unprefixed (inl prefixed) =
      rw (prefixed, has_prefix-append "sha256=" digest)
        (unfold text_length in drop_chars-append "sha256=" digest)
  bare_digest-of_form supplied digest unprefixed (inr bare) = rw (bare, unprefixed) refl

  -- A signature is accepted exactly when the secret is not empty, the signature is not empty, and the
  -- signature, stripped and in lower case, is the digest of the body under the secret, with or without
  -- the prefix `sha256=`. Hex digests must have their documented form and not begin with that prefix.
  pub signature_accepted_iff :
      IsHexDigest
      → ((secret : String) (raw : List ℕ) → has_prefix "sha256=" (py.hmac_hex secret raw) ≡ false)
      → (raw : List ℕ) (secret supplied : String)
      → (verify_hmac_signature raw secret supplied ≡ ok true)
        ↔ ((secret == "") ≡ false)
          × ((supplied == "") ≡ false)
          × ((py.lower (strip supplied) ≡ "sha256=" <> py.hmac_hex secret raw)
              ⊎ (py.lower (strip supplied) ≡ py.hmac_hex secret raw))
  signature_accepted_iff H unprefixed raw secret supplied =
      let guards = verify_hmac_signature_iff raw secret supplied in
      (
        λ h.
            let (some_secret, some_signature, _, _, same) = guards.0 h in
            (some_secret, some_signature, bare_digest-cases supplied _ (sym same)),
        λ h.
            let (some_secret, some_signature, form) = h in
            let same =
              bare_digest-of_form supplied (py.hmac_hex secret raw) (unprefixed secret raw) form in
            guards.1 (
              some_secret,
              some_signature,
              rw same (H.nonempty secret raw),
              rw same (H.ascii secret raw),
              sym same,
            ),
      )
