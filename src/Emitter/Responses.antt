-- ===== src/Emitter/Responses.antt =====
-- What a producer concludes from a response.
use hermes_plugin_async_thre.Prelude.{
  Bool-cases, Option, String, arith, elem, eq_iff, false, if◌then◌else◌, inl, inr, leb, ltb, none,
  not, some, true, ℕ, ◌&&◌, ◌==◌, ◌≡◌,
}
use hermes_plugin_async_thre.Emitter.{
  body_status, classify_receiver_response, exit_code_for_result, is_retryable_http_status,
  success_receiver_statuses,
}
use hermes_plugin_async_thre.Python.Json.{Json}
use hermes_plugin_async_thre.Python.Runtime.{Runtime}

not_retryable : (n : ℕ) → (leb 200 n && ltb n 300) ≡ true → is_retryable_http_status n ≡ false
not_retryable n h = ground arith

status_or_empty : (s : String) → (if not (s == "") then s else "") ≡ s
status_or_empty s = ground (arith, eq_iff s "")

module _ ⦃py : Runtime⦄ where
  -- The exit code of a classified response is 0 exactly for a 2xx response whose status the receiver
  -- uses for success, 75 (try again) exactly for a transport failure or a retryable HTTP status, and
  -- 1 otherwise.
  pub exit_code-classify :
      (http_status : Option ℕ) (parsed : Option Json) (body error : String)
      → exit_code_for_result (classify_receiver_response http_status parsed body error)
        ≡ elim http_status [
          | none ↦ 75
          | some n ↦
              if leb 200 n && ltb n 300
              then (if elem (body_status parsed) success_receiver_statuses then 0 else 1)
              else if is_retryable_http_status n
              then 75
              else 1
        ]
  unfolding exit_code_for_result classify_receiver_response
  exit_code-classify none parsed body error = ground arith
  exit_code-classify (some n) parsed body error =
      rw status_or_empty (elim (Bool-cases (leb 200 n && ltb n 300)) [
        | inl done ↦ rw done (ground (arith, not_retryable n done))
        | inr other ↦ rw other (ground arith)
      ])
