-- ===== src/Python/Text.antt =====
-- The methods of Python's `str` that the program calls, by recursion over the characters.
use Prim.Native.Char.{Char, code}
use text.Mathlib.TextLemmas.{cons-append, nil-append}
use text.Mathlib.TextLemmas.{cons-ne-nil}
use package.text.Mathlib.TextEquality.{Char-path}
use hermes_plugin_async_thre.Prelude.{
  Bool, List, String, [], arith, eq_iff, false, if◌then◌else◌, ltb, nat_eq, refl, suc, true, zero,
  ℕ, ◌&&◌, ◌+◌, ◌<>◌, ◌==◌, ◌||◌, ◌∷◌, ◌≡◌, ◌≤◌,
}
use hermes_plugin_async_thre.Python.Runtime.{Runtime}

-- `s[:n]`
unfoldable pub clip : ℕ → String → String
clip zero s = ""
clip (suc n) String.[] = ""
clip (suc n) (String.◌∷◌ c s) = String.◌∷◌ c (clip n s)

-- `"".join(c for c in s if test(c))`
unfoldable pub keep_chars : (Char → Bool) → String → String
keep_chars p String.[] = ""
keep_chars p (String.◌∷◌ c s) = let rest = keep_chars p s in if p c then String.◌∷◌ c rest else rest

-- `s[n:]`
unfoldable pub drop_chars : ℕ → String → String
drop_chars zero s = s
drop_chars (suc n) String.[] = ""
drop_chars (suc n) (String.◌∷◌ c s) = drop_chars n s

-- `s.isascii()`
unfoldable pub is_ascii : String → Bool
is_ascii String.[] = true
is_ascii (String.◌∷◌ c s) = ltb (code c) 128 && is_ascii s

-- `s.replace(old, new)`, of one character
unfoldable pub replace : Char → Char → String → String
replace old new String.[] = ""
replace old new (String.◌∷◌ c s) =
    String.◌∷◌ (if nat_eq (code c) (code old) then new else c) (replace old new s)

-- `s.startswith(p)`
unfoldable pub has_prefix : String → String → Bool
has_prefix String.[] s = true
has_prefix (String.◌∷◌ c p) String.[] = false
has_prefix (String.◌∷◌ c p) (String.◌∷◌ d s) = nat_eq (code c) (code d) && has_prefix p s

-- `marker in s`
unfoldable pub contains : String → String → Bool
unfolding has_prefix
contains m String.[] = has_prefix m ""
contains m (String.◌∷◌ c s) = has_prefix m (String.◌∷◌ c s) || contains m s

-- the last field of a text so far, under a further character
abbrev push_char : Char → List String → List String
push_char c [] = (String.◌∷◌ c "") ∷ []
push_char c (w ∷ ws) = (String.◌∷◌ c w) ∷ ws

-- `s.split(sep)`, by one character
unfoldable pub split : Char → String → List String
split sep String.[] = "" ∷ []
split sep (String.◌∷◌ c s) =
    let rest = split sep s in if nat_eq (code c) (code sep) then "" ∷ rest else push_char c rest

unfoldable pub text_length : String → ℕ
text_length String.[] = 0
text_length (String.◌∷◌ c s) = suc (text_length s)

module _ ⦃py : Runtime⦄ where
  unfoldable pub lstrip : String → String
  lstrip String.[] = ""
  lstrip (String.◌∷◌ c s) = let rest = lstrip s in if py.is_space c then rest else String.◌∷◌ c s

  unfoldable pub rstrip : String → String
  rstrip String.[] = ""
  rstrip (String.◌∷◌ c s) =
      let rest = rstrip s in if rest == "" && py.is_space c then "" else String.◌∷◌ c rest

  -- `s.strip()`
  unfoldable pub strip : String → String
  unfolding lstrip rstrip
  strip s = rstrip (lstrip s)

  -- `ch.isalnum() or ch in {"-", "_", ".", ":"}`
  unfoldable pub is_token_char : Char → Bool
  is_token_char c =
      py.is_alnum c
      || nat_eq (code c) b'-'
      || nat_eq (code c) b'_'
      || nat_eq (code c) b'.'
      || nat_eq (code c) b':'

  -- `_clean_token(value, default=..., max_len=...)` on a text
  unfoldable pub clean_token : String → String → ℕ → String
  unfolding strip keep_chars clip is_token_char
  clean_token value default max_len =
      let cleaned = clip max_len (keep_chars is_token_char (strip value)) in
      if cleaned == "" then default else cleaned

pub text_length-clip-le : (n : ℕ) (s : String) → text_length (clip n s) ≤ n
unfolding clip text_length
text_length-clip-le zero s = omega arith
text_length-clip-le (suc n) String.[] = omega arith
text_length-clip-le (suc n) (String.◌∷◌ c s) = omega (arith, text_length-clip-le n s)

pub has_prefix-append : (p s : String) → has_prefix p (p <> s) ≡ true
unfolding has_prefix
has_prefix-append String.[] s = refl
has_prefix-append (String.◌∷◌ c p) s = rw cons-append (ground (arith, has_prefix-append p s))

pub drop_chars-append : (p s : String) → drop_chars (text_length p) (p <> s) ≡ s
unfolding drop_chars text_length
drop_chars-append String.[] s = nil-append s
drop_chars-append (String.◌∷◌ c p) s = rw cons-append (drop_chars-append p s)

-- a text that has a prefix is the prefix and what is left
pub prefix-drop_chars :
    (p s : String) → has_prefix p s ≡ true → p <> drop_chars (text_length p) s ≡ s
unfolding has_prefix drop_chars text_length
prefix-drop_chars String.[] s h = nil-append s
prefix-drop_chars (String.◌∷◌ c p) String.[] h = cc
prefix-drop_chars (String.◌∷◌ c p) (String.◌∷◌ d s) h =
    let same : c ≡ d = Char-path c d (ground (arith, h)) in
    let rest : p <> drop_chars (text_length p) s ≡ s = prefix-drop_chars p s (ground (arith, h)) in
    rw (cons-append, same, rest) refl

pub text_length-append : (s t : String) → text_length (s <> t) ≡ text_length s + text_length t
unfolding text_length
text_length-append String.[] t = rw nil-append (omega arith)
text_length-append (String.◌∷◌ c s) t = rw cons-append (omega (arith, text_length-append s t))

pub cons-eq-nil : (c : Char) (s : String) → (String.◌∷◌ c s == "") ≡ false
cons-eq-nil c s = ground (arith, eq_iff (String.◌∷◌ c s) "", cons-ne-nil c s)

pub append-eq-nil : (p s : String) → (p == "") ≡ false → ((p <> s) == "") ≡ false
append-eq-nil String.[] s h = cc
append-eq-nil (String.◌∷◌ c p) s h = rw cons-append (cons-eq-nil c (p <> s))
