-- ===== src/Prelude/First.antt =====
-- The first row of a table that passes a test, after an update and after an insertion.
use mathlib.Core.Path.{◌≡◌, refl}
use mathlib.Core.Bool.{Bool, true, false, not}
use mathlib.Core.Option.{none, some}
use mathlib.Core.Logic.{inl, inr, ◌⊎◌}
use mathlib.Core.List.{List, [], ◌∷◌, ◌++◌}
use native.Mathlib.Omega.{arith}
use hermes_plugin_async_thre.Prelude.Tests.{if◌then◌else◌, Bool-cases}
use hermes_plugin_async_thre.Prelude.Lists.{any, first, keep, update_where}

module _ {ℓ} {A : Type ℓ} where
  -- the row that is found, after an update of the rows that pass
  pub first-update :
      (p : A → Bool) (f : A → A) (rows : List A) (row : A)
      → ((r : A) → p (f r) ≡ p r)
      → first p rows ≡ some row
      → first p (update_where p f rows) ≡ some (f row)
  first-update p f [] row keeps h = cc
  first-update p f (x ∷ xs) row keeps h = elim (Bool-cases (p x)) [
    | inl e ↦ rw e (rw (keeps x) (rw e (ground (arith, e, h))))
    | inr e ↦ rw e (rw e (first-update p f xs row keeps (ground (arith, e, h))))
  ]

  -- the update of other rows
  pub first-update_other :
      (p q : A → Bool) (f : A → A) (rows : List A)
      → ((r : A) → p (f r) ≡ p r)
      → ((r : A) → q r ≡ true → p r ≡ false)
      → first p (update_where q f rows) ≡ first p rows
  first-update_other p q f [] keeps others = refl
  first-update_other p q f (x ∷ xs) keeps others = elim (Bool-cases (q x)) [
    | inl e ↦ rw e (rw (keeps x) (rw (others x e) (first-update_other p q f xs keeps others)))
    | inr e ↦ rw e (rw (first-update_other p q f xs keeps others) refl)
  ]

  pub first-append :
      (p : A → Bool) (rows : List A) (new : A)
      → first p rows ≡ none
      → first p (rows ++ new ∷ []) ≡ (if p new then some new else none)
  first-append p [] new h = refl
  first-append p (x ∷ xs) new h = elim (Bool-cases (p x)) [
    | inl e ↦ ground (arith, e, h)
    | inr e ↦ rw e (first-append p xs new (ground (arith, e, h)))
  ]

  pub first-append_other :
      (p : A → Bool) (rows : List A) (new : A)
      → p new ≡ false
      → first p (rows ++ new ∷ []) ≡ first p rows
  first-append_other p [] new h = rw h refl
  first-append_other p (x ∷ xs) new h = rw (first-append_other p xs new h) refl

  -- the tests on a filtered list
  pub any-keep-not : (p : A → Bool) (xs : List A) → any p (keep (λ x. not (p x)) xs) ≡ false
  any-keep-not p [] = refl
  any-keep-not p (x ∷ xs) = elim (Bool-cases (p x)) [
    | inl e ↦ rw e (any-keep-not p xs)
    | inr e ↦ rw e (rw e (any-keep-not p xs))
  ]

  pub any-keep : (p q : A → Bool) (xs : List A) → any p xs ≡ false → any p (keep q xs) ≡ false
  any-keep p q [] none_passes = refl
  any-keep p q (x ∷ xs) none_passes = elim (Bool-cases (p x)) [
    | inl e ↦ ground (arith, e, none_passes)
    | inr e ↦ let rest = any-keep p q xs (ground (arith, e, none_passes)) in ground (arith, e, rest)
  ]

  pub first-keep :
      (p q : A → Bool) (xs : List A)
      → ((x : A) → p x ≡ true → q x ≡ true)
      → first p (keep q xs) ≡ first p xs
  first-keep p q [] kept = refl
  first-keep p q (x ∷ xs) kept = elim (Bool-cases (p x)) [
    | inl e ↦ rw e (rw (kept x e) (rw e refl))
    | inr e ↦ elim (Bool-cases (q x)) [
      | inl k ↦ rw k (rw e (first-keep p q xs kept))
      | inr k ↦ rw k (rw e (first-keep p q xs kept))
    ]
  ]

  -- whether a row passes, and which one is found
  pub first-any :
      (p : A → Bool) (xs : List A)
      → ((x : A) × (first p xs ≡ some x) × (any p xs ≡ true))
        ⊎ ((first p xs ≡ none) × (any p xs ≡ false))
  first-any p [] = inr (refl, refl)
  first-any p (x ∷ xs) = elim (Bool-cases (p x)) [
    | inl e ↦ inl (x, rw e refl, rw e refl)
    | inr e ↦ rw e (first-any p xs)
  ]
