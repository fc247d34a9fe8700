-- ===== src/Python/Ascii.antt =====
-- What the Unicode tables say of the lower-case ASCII letters, and what cleaning a token made of them
-- gives.
use Prim.Native.Char.{Char, code}
use hermes_plugin_async_thre.Prelude.{
  Bool, String, ap, arith, false, leb, refl, true, ℕ, ◌&&◌, ◌==◌, ◌≡◌,
}
use hermes_plugin_async_thre.Python.Runtime.{Runtime}
use hermes_plugin_async_thre.Python.Text.{
  clean_token, clip, is_token_char, keep_chars, lstrip, rstrip, strip,
}

-- `a` to `z`
abbrev pub is_lower : Char → Bool
is_lower c = leb b'a' (code c) && leb (code c) b'z'

-- Such a letter is alphanumeric and no white space.
pub record KnowsAscii (py : Runtime) : Type 0 where
  pub letter-is_alnum : (c : Char) → is_lower c ≡ true → py.is_alnum c ≡ true
  pub letter-is_space : (c : Char) → is_lower c ≡ true → py.is_space c ≡ false

-- a text of such letters
abbrev pub is_word : String → Bool
is_word String.[] = true
is_word (String.◌∷◌ c s) = is_lower c && is_word s

module _ ⦃py : Runtime⦄ (known : KnowsAscii py) where
  lstrip-word : (s : String) → is_word s ≡ true → lstrip s ≡ s
  unfolding lstrip
  lstrip-word String.[] h = refl
  lstrip-word (String.◌∷◌ c s) h = rw (known.letter-is_space c (ground (arith, h))) refl

  rstrip-word : (s : String) → is_word s ≡ true → rstrip s ≡ s
  unfolding rstrip
  rstrip-word String.[] h = refl
  rstrip-word (String.◌∷◌ c s) h =
      rw (rstrip-word s (ground (arith, h)))
        (rw (known.letter-is_space c (ground (arith, h))) (ground arith))

  keep-word : (s : String) → is_word s ≡ true → keep_chars is_token_char s ≡ s
  unfolding keep_chars is_token_char
  keep-word String.[] h = refl
  keep-word (String.◌∷◌ c s) h =
      rw (known.letter-is_alnum c (ground (arith, h)))
        (ap (String.◌∷◌ c) (keep-word s (ground (arith, h))))

  -- A word that is not empty and fits is a token as it stands.
  pub clean_token-word :
      (s default : String) (n : ℕ)
      → is_word s ≡ true
      → (s == "") ≡ false
      → clip n s ≡ s
      → clean_token s default n ≡ s
  unfolding clean_token strip
  clean_token-word s default n word some_char fits =
      rw (lstrip-word s word)
        (rw (rstrip-word s word) (rw (keep-word s word) (rw fits (rw some_char refl))))
