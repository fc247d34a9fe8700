-- ===== src/Continuation/Bounds.antt =====
-- Every continuation policy that is read is within the limits of the module.
use mathlib.Core.Path.{subst}
use hermes_plugin_async_thre.Prelude.{
  List, Option-cases, String, [], arith, false, inl, inr, length, max_ℤ, min_ℤ, pos, refl, suc,
  take, true, zero, ℕ, ℤ, ◌↔◌, ◌∷◌, ◌≡◌, ◌≤ℤ◌, ◌≤◌, ◌⊎◌,
}
use hermes_plugin_async_thre.Continuation.{
  ContinuationPolicy, continuation_from_mapping, continuation_to_mapping, reread_continuation,
}
use hermes_plugin_async_thre.Python.Except.{
  Exc, Except-cases, bind-eq-ok, listen_validation, ok, ok-injective, overflow_error, raise,
  type_error, validation, value_error,
}
use hermes_plugin_async_thre.Python.Json.{
  Fields, Json, arr, bool, get, get_or, int, null, obj, real, text,
}
use hermes_plugin_async_thre.Python.Runtime.{Runtime}
use hermes_plugin_async_thre.Python.Values.{
  bounded_int, is_type_or_value_error, or_default, to_int, truthy,
}

pub record IsBounded (p : ContinuationPolicy) : Type 0 where
  pub turns_low : pos 1 ≤ℤ p.max_turns
  pub turns_high : p.max_turns ≤ℤ pos 5
  pub calls_low : pos 0 ≤ℤ p.max_tool_calls
  pub calls_high : p.max_tool_calls ≤ℤ pos 20
  pub timeout_low : pos 10 ≤ℤ p.timeout_seconds
  pub timeout_high : p.timeout_seconds ≤ℤ pos 600
  pub few_toolsets : length p.toolsets ≤ 8

clamped :
    (v low high : ℤ)
    → low ≤ℤ high
    → (low ≤ℤ max_ℤ low (min_ℤ v high)) × (max_ℤ low (min_ℤ v high) ≤ℤ high)
clamped v low high h = ground arith

length-take-le {ℓ} : {A : Type ℓ} (n : ℕ) (xs : List A) → length (take n xs) ≤ n
length-take-le zero xs = omega arith
length-take-le (suc n) [] = omega arith
length-take-le (suc n) (x ∷ xs) = omega (arith, length-take-le n xs)

module _ ⦃py : Runtime⦄ where
  pub bounded_int_bounds :
      (value : Json) (default low high : ℤ) {n : ℤ}
      → low ≤ℤ high
      → bounded_int value default low high ≡ ok n
      → (low ≤ℤ n) × (n ≤ℤ high)
  unfolding bounded_int
  bounded_int_bounds value default low high {n} h e =
      let (v, _, same) = bind-eq-ok (or_default (to_int value) default) _ e in
      subst (λ (k : ℤ). (low ≤ℤ k) × (k ≤ℤ high)) (ok-injective same) (clamped v low high h)

  -- A policy that `from_mapping` returns is within the limits: one to five turns, at most 20 tool
  -- calls, 10 to 600 seconds, at most eight toolsets.
  pub continuation_from_mapping-IsBounded :
      (value : Fields) {p : ContinuationPolicy}
      → continuation_from_mapping value ≡ ok p
      → IsBounded p
  unfolding continuation_from_mapping
  continuation_from_mapping-IsBounded value {p} h =
      let (turns, e1, h1) =
        bind-eq-ok
          (bounded_int (get_or "max_turns" (get "maxTurns" value) value) (pos 1) (pos 1) (pos 5)) _
          h in
      let (calls, e2, h2) =
        bind-eq-ok
          (bounded_int (get_or "max_tool_calls" (get "maxToolCalls" value) value) (pos 0) (pos 0)
            (pos 20))
          _ h1 in
      let (timeout, e3, h3) =
        bind-eq-ok
          (bounded_int (get_or "timeout_seconds" (get "timeoutSeconds" value) value) (pos 120)
            (pos 10) (pos 600))
          _ h2 in
      let b1 = bounded_int_bounds _ (pos 1) (pos 1) (pos 5) (omega arith) e1 in
      let b2 = bounded_int_bounds _ (pos 0) (pos 0) (pos 20) (omega arith) e2 in
      let b3 = bounded_int_bounds _ (pos 120) (pos 10) (pos 600) (omega arith) e3 in
      subst IsBounded (ok-injective h3) (record {
        turns_low = b1.0;
        turns_high = b1.1;
        calls_low = b2.0;
        calls_high = b2.1;
        timeout_low = b3.0;
        timeout_high = b3.1;
        few_toolsets = length-take-le 8 _;
      })

  -- `reread_continuation` is `from_mapping` of `to_mapping`
  pub reread_continuation-from_mapping :
      (p : ContinuationPolicy)
      → continuation_from_mapping (continuation_to_mapping p) ≡ ok (reread_continuation p)
  unfolding continuation_from_mapping continuation_to_mapping reread_continuation bounded_int
      or_default to_int truthy
  reread_continuation-from_mapping p = refl

  refused_real :
      (r : String) (default low high : ℤ)
      → py.int_of_real r ≡ raise overflow_error
      → bounded_int (real r) default low high ≡ raise overflow_error
  unfolding bounded_int to_int or_default is_type_or_value_error
  refused_real r default low high refuses = rw refuses refl

  raises_as_int :
      (r : String) (default low high : ℤ) (e x : Exc)
      → py.int_of_real r ≡ raise x
      → bounded_int (real r) default low high ≡ raise e
      → (e ≡ overflow_error) × (py.int_of_real r ≡ raise overflow_error)
  unfolding bounded_int to_int or_default is_type_or_value_error
  raises_as_int r default low high e overflow_error refuses h =
      let h' = rw refuses at h in (cc, refuses)
  raises_as_int r default low high e (validation m) refuses h = let h' = rw refuses at h in cc
  raises_as_int r default low high e (listen_validation m) refuses h =
      let h' = rw refuses at h in cc
  raises_as_int r default low high e (value_error m) refuses h = let h' = rw refuses at h in cc
  raises_as_int r default low high e type_error refuses h = let h' = rw refuses at h in cc

  int_reads :
      (value : Json) (default low high : ℤ) {n : ℤ}
      → to_int value ≡ ok n
      → bounded_int value default low high ≡ ok (max_ℤ low (min_ℤ n high))
  unfolding or_default bounded_int
  int_reads value default low high reads = rw reads refl

  int_takes_default :
      (value : Json) (default low high : ℤ) (message : String)
      → to_int value ≡ raise (value_error message)
      → bounded_int value default low high ≡ ok (max_ℤ low (min_ℤ default high))
  unfolding or_default bounded_int is_type_or_value_error
  int_takes_default value default low high message refuses = rw refuses refl

  int_of_text-cases :
      (s : String)
      → ((n : ℤ) × (to_int (text s) ≡ ok n))
        ⊎ ((message : String) × (to_int (text s) ≡ raise (value_error message)))
  unfolding to_int
  int_of_text-cases s = elim (Option-cases (py.int_of_text s)) [
    | inl absent ↦ inr ("invalid literal for int()", rw (to_int, absent) refl)
    | inr (n, reads) ↦ inl (n, rw (to_int, reads) refl)
  ]

  -- a text that is no number takes the default, and a text that is one is read
  text_fine :
      (s : String) (default low high : ℤ) → (n : ℤ) × (bounded_int (text s) default low high ≡ ok n)
  text_fine s default low high = elim (int_of_text-cases s) [
    | inl (n, reads) ↦ (_, int_reads (text s) default low high reads)
    | inr (message, refuses) ↦ (_, int_takes_default (text s) default low high message refuses)
  ]

  raises_on_real :
      (value : Json) (default low high : ℤ) (e : Exc)
      → bounded_int value default low high ≡ raise e
      → (e ≡ overflow_error)
        × (r : String) × (value ≡ real r)
        × (py.int_of_real r ≡ raise overflow_error)
  unfolding bounded_int to_int or_default is_type_or_value_error
  raises_on_real null default low high e h = cc
  raises_on_real (bool true) default low high e h = cc
  raises_on_real (bool false) default low high e h = cc
  raises_on_real (int n) default low high e h = cc
  raises_on_real (real r) default low high e h = elim (Except-cases (py.int_of_real r)) [
    | inl (n, reads) ↦ let fine = int_reads (real r) default low high (unfold to_int in reads) in cc
    | inr (x, refuses) ↦
        let (same, overflows) = raises_as_int r default low high e x refuses h in
        (same, r, refl, overflows)
  ]
  raises_on_real (text s) default low high e h = let (n, fine) = text_fine s default low high in cc
  raises_on_real (arr xs) default low high e h = cc
  raises_on_real (obj d) default low high e h = cc

  -- `_bounded_int` raises exactly on a float that `int` refuses with `OverflowError`, and then it is
  -- that error: no other value, a text that is no number included, makes it raise.
  pub bounded_int_raises_iff :
      (value : Json) (default low high : ℤ) (e : Exc)
      → (bounded_int value default low high ≡ raise e)
        ↔ (e ≡ overflow_error)
          × (r : String) × (value ≡ real r)
          × (py.int_of_real r ≡ raise overflow_error)
  bounded_int_raises_iff value default low high e = (
    raises_on_real value default low high e,
    λ h.
        let (same, r, is_real, refuses) = h in
        rw (same, is_real) (refused_real r default low high refuses),
  )
