-- ===== src/Python/Except.antt =====
-- Exceptions as values. Each constructor is an exception class that some handler of the program
-- tells from the others.
use hermes_plugin_async_thre.Prelude.{Bool, String, false, inl, inr, refl, true, ◌≡◌, ◌⊎◌}

pub data Exc : Type 0 where
  -- `EventValidationError`, a subclass of `ValueError`, with its message
  validation : String → Exc
  -- `ListenValidationError`, a subclass of `ValueError`
  listen_validation : String → Exc
  value_error : String → Exc
  type_error : Exc
  overflow_error : Exc

pub data Except {ℓ} (A : Type ℓ) : Type ℓ where
  ok : A → Except A
  raise : Exc → Except A

infixl 5 ◌>>=◌ ◌>>◌
abbrev pub ◌>>=◌ {ℓ κ} : {A : Type ℓ} {B : Type κ} → Except A → (A → Except B) → Except B
ok a >>= f = f a
raise e >>= f = raise e

abbrev pub ◌>>◌ {ℓ} : {B : Type ℓ} → Except (Unit {0}) → Except B → Except B
m >> k = m >>= λ _. k

abbrev pub raise_if : Bool → Exc → Except (Unit {0})
raise_if true e = raise e
raise_if false e = ok tt

-- What a successful chain went through.
pub bind-eq-ok {ℓ κ} :
    {A : Type ℓ} {B : Type κ} (m : Except A) (f : A → Except B) {b : B}
    → (m >>= f) ≡ ok b
    → (a : A) × (m ≡ ok a) × (f a ≡ ok b)
bind-eq-ok (ok a) f h = (a, refl, h)
bind-eq-ok (raise e) f h = cc

pub raise_if-eq-ok {κ} :
    {B : Type κ} (c : Bool) (e : Exc) (m : Except B) {b : B}
    → (raise_if c e >>= λ _. m) ≡ ok b
    → (c ≡ false) × (m ≡ ok b)
raise_if-eq-ok true e m h = cc
raise_if-eq-ok false e m h = (refl, h)

pub ok-injective {ℓ} : {A : Type ℓ} {a b : A} → ok a ≡ ok b → a ≡ b
ok-injective h = cc

pub Except-cases {ℓ} :
    {A : Type ℓ} (m : Except A) → ((a : A) × (m ≡ ok a)) ⊎ ((e : Exc) × (m ≡ raise e))
Except-cases (ok a) = inl (a, refl)
Except-cases (raise e) = inr (e, refl)
