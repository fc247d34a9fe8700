-- ===== src/SourceFilters/Resolved.antt =====
-- What `_dedupe` returns.
use hermes_plugin_async_thre.Prelude.{
  Bool-cases, List, String, [], arith, drop_text, elem, eq_iff, false, inl, inr, map, not, refl,
  ◌&&◌, ◌==◌, ◌∙◌, ◌∷◌, ◌≡◌,
}
use hermes_plugin_async_thre.Python.Runtime.{Runtime}
use hermes_plugin_async_thre.Python.Text.{strip}
use hermes_plugin_async_thre.Python.Values.{stripped}
use hermes_plugin_async_thre.SourceFilters.{dedupe, first_occurrences}

-- No text stands twice in the list.
abbrev pub IsDistinct : List String → Type 0
IsDistinct [] = Unit
IsDistinct (x ∷ xs) = (elem x xs ≡ false) × IsDistinct xs

elem-drop_text_self : (x : String) (xs : List String) → elem x (drop_text x xs) ≡ false
elem-drop_text_self x [] = refl
elem-drop_text_self x (y ∷ ys) = ground (arith, elem-drop_text_self x ys)

elem-drop_text :
    (x y : String) (xs : List String) → elem y xs ≡ false → elem y (drop_text x xs) ≡ false
elem-drop_text x y [] h = refl
elem-drop_text x y (z ∷ zs) h = ground (arith, elem-drop_text x y zs)

drop_text-IsDistinct : (x : String) (xs : List String) → IsDistinct xs → IsDistinct (drop_text x xs)
drop_text-IsDistinct x [] h = tt
drop_text-IsDistinct x (y ∷ ys) h =
    ground (arith, drop_text-IsDistinct x ys h.1, elem-drop_text x y ys h.0)

elem-drop_text_other :
    (x y : String) (xs : List String) → (y == x) ≡ false → elem y (drop_text x xs) ≡ elem y xs
elem-drop_text_other x y [] h = refl
elem-drop_text_other x y (z ∷ zs) h = elim (Bool-cases (x == z)) [
  | inl same ↦
      let distinct : (y == z) ≡ false = rw ((eq_iff x z).0 same) at h in
      rw same (rw distinct (elem-drop_text_other x y zs h))
  | inr other ↦ rw other (rw (elem-drop_text_other x y zs h) refl)
]

module _ ⦃py : Runtime⦄ where
  first_occurrences-IsDistinct : (xs : List String) → IsDistinct (first_occurrences xs)
  unfolding first_occurrences
  first_occurrences-IsDistinct [] = tt
  first_occurrences-IsDistinct (x ∷ xs) = (
    elem-drop_text_self x (first_occurrences xs),
    drop_text-IsDistinct x (first_occurrences xs) (first_occurrences-IsDistinct xs),
  )

  elem-first_occurrences :
      (x : String) (xs : List String) → elem x (first_occurrences xs) ≡ elem x xs
  unfolding first_occurrences
  elem-first_occurrences x [] = refl
  elem-first_occurrences x (y ∷ ys) = elim (Bool-cases (x == y)) [
    | inl same ↦ rw same refl
    | inr other ↦
        rw other
          (elem-drop_text_other y x (first_occurrences ys) other ∙ elem-first_occurrences x ys)
  ]

  elem-stripped :
      (x : String) (xs : List String)
      → elem x (stripped xs) ≡ (elem x (map strip xs) && not (x == ""))
  unfolding stripped
  elem-stripped x [] = refl
  elem-stripped x (y ∷ ys) = elim (Bool-cases (strip y == "")) [
    | inl blank ↦ rw ((eq_iff (strip y) "").0 blank) (elem-stripped x ys ∙ ground (arith))
    | inr given ↦ rw given (elim (Bool-cases (x == strip y)) [
      | inl same ↦ rw (same, (eq_iff x (strip y)).0 same, given) refl
      | inr other ↦ rw other (elem-stripped x ys)
    ])
  ]

  -- What `_dedupe` returns has no text twice, and its texts are exactly those of the given list with
  -- the whitespace around them stripped, the empty one left out.
  pub dedupe-IsDistinct :
      (xs : List String)
      → IsDistinct (dedupe xs)
        × ((x : String) → elem x (dedupe xs) ≡ (elem x (map strip xs) && not (x == "")))
  unfolding dedupe
  dedupe-IsDistinct xs = (
    first_occurrences-IsDistinct (stripped xs),
    λ x. elem-first_occurrences x (stripped xs) ∙ elem-stripped x xs,
  )
