-- ===== src/Listeners/Bounds.antt =====
-- What a listener may ask for.
use mathlib.Core.Path.{subst}
use hermes_plugin_async_thre.Prelude.{
  Bool, Bool-cases, String, arith, elem, false, inl, inr, leb_ℤ, negsuc, not, pos, refl, true,
  true_of_not, ℤ, ◌&&◌, ◌==◌, ◌||◌, ◌≡◌, ◌≤ℤ◌,
}
use hermes_plugin_async_thre.Continuation.{ContinuationPolicy}
use hermes_plugin_async_thre.Listeners.Request.{
  ListenArguments, ListenRequest, continuation_of, effective_ack, effective_debounce,
  is_out_of_range, normalize_listen_request, normalized_policy, read_debounce, request_of,
  valid_ack_modes, valid_gate_modes, valid_policies,
}
use hermes_plugin_async_thre.Python.Except.{bind-eq-ok, ok, ok-injective, raise_if-eq-ok}
use hermes_plugin_async_thre.Python.Json.{int}
use hermes_plugin_async_thre.Python.Runtime.{Runtime}
use hermes_plugin_async_thre.Python.Values.{or_value, to_int}
use hermes_plugin_async_thre.Workflow.Transition.{or_text}

-- a direct listener acknowledges nothing and delays nothing
unfoldable pub is_silent_if_direct : ListenRequest → Bool
is_silent_if_direct r =
    not (r.policy == "direct") || ((r.ack_mode == "none") && leb_ℤ r.debounce_seconds (pos 0))

pub record IsWithin (r : ListenRequest) : Type 0 where
  pub known_policy : elem r.policy valid_policies ≡ true
  pub known_ack : elem r.ack_mode valid_ack_modes ≡ true
  pub known_gate_mode : elem r.gate_mode valid_gate_modes ≡ true
  pub not_negative : pos 0 ≤ℤ r.debounce_seconds
  pub at_most : r.debounce_seconds ≤ℤ pos 300
  pub silent : is_silent_if_direct r ≡ true

normalized_policy-known : (p : String) → elem (normalized_policy p) valid_policies ≡ true
unfolding normalized_policy
normalized_policy-known p = elim (Bool-cases (elem p valid_policies)) [
  | inl e ↦ rw e e
  | inr e ↦ rw e refl
]

effective_ack-known :
    (policy ack : String)
    → elem ack valid_ack_modes ≡ true
    → elem (effective_ack policy ack) valid_ack_modes ≡ true
unfolding effective_ack
effective_ack-known policy ack known = elim (Bool-cases (policy == "direct")) [
  | inl e ↦ rw e refl
  | inr e ↦ rw e known
]

in_range : (n : ℤ) → is_out_of_range n ≡ false → (pos 0 ≤ℤ n) × (n ≤ℤ pos 300)
unfolding is_out_of_range
in_range (pos n) h = (omega arith, ground (arith, h))
in_range (negsuc n) h = ground (arith, h)

effective_debounce-in_range :
    (policy : String) (n : ℤ)
    → (pos 0 ≤ℤ n) × (n ≤ℤ pos 300)
    → (pos 0 ≤ℤ effective_debounce policy n) × (effective_debounce policy n ≤ℤ pos 300)
unfolding effective_debounce
effective_debounce-in_range policy n h = elim (Bool-cases (policy == "direct")) [
  | inl e ↦ rw e (omega arith, omega arith)
  | inr e ↦ rw e h
]

module _ ⦃py : Runtime⦄ where
  request_of-silent :
      (args : ListenArguments) (policy ack : String) (n : ℤ) (mode : String)
      (continuation : ContinuationPolicy)
      → is_silent_if_direct (request_of args policy ack n mode continuation) ≡ true
  unfolding is_silent_if_direct request_of effective_ack effective_debounce
  request_of-silent args policy ack n mode continuation = elim (Bool-cases (policy == "direct")) [
    | inl e ↦ rw e refl
    | inr e ↦ rw e refl
  ]

  request_of-IsWithin :
      (args : ListenArguments) (policy ack mode : String) (n : ℤ)
      (continuation : ContinuationPolicy)
      → elem policy valid_policies ≡ true
      → not (elem ack valid_ack_modes) ≡ false
      → not (elem mode valid_gate_modes) ≡ false
      → is_out_of_range n ≡ false
      → IsWithin (request_of args policy ack n mode continuation)
  unfolding request_of
  request_of-IsWithin args policy ack mode n continuation known ack_fine mode_fine range =
      let (low, high) = effective_debounce-in_range policy n (in_range n range) in
      record {
        known_policy = known;
        known_ack = effective_ack-known policy ack (true_of_not _ ack_fine);
        known_gate_mode = true_of_not _ mode_fine;
        not_negative = low;
        at_most = high;
        silent = request_of-silent args policy ack n mode continuation;
      }

  -- A request that is normalized has a known policy, acknowledgement and gate mode, a debounce of 0
  -- to 300 seconds, and, where it delivers directly, neither acknowledgements nor a debounce.
  pub normalize_listen_request-IsWithin :
      (args : ListenArguments) {r : ListenRequest}
      → normalize_listen_request args ≡ ok r
      → IsWithin r
  unfolding normalize_listen_request
  normalize_listen_request-IsWithin args {r} h =
      let policy = normalized_policy args.policy in
      let ack = or_text args.ack_mode "none" in
      let mode = py.lower (or_text args.gate_mode "serial") in
      let (ack_fine, h1) = raise_if-eq-ok (not (elem ack valid_ack_modes)) _ _ h in
      let (n, _, h2) =
        bind-eq-ok (read_debounce (to_int (or_value args.debounce_seconds (int (pos 0))))) _ h1 in
      let (range, h3) = raise_if-eq-ok (is_out_of_range n) _ _ h2 in
      let (mode_fine, h4) = raise_if-eq-ok (not (elem mode valid_gate_modes)) _ _ h3 in
      let (continuation, _, h5) = bind-eq-ok (continuation_of args.continuation_policy) _ h4 in
      subst IsWithin (ok-injective h5) (
        request_of-IsWithin args policy ack mode n continuation
          (normalized_policy-known args.policy) ack_fine mode_fine range)
