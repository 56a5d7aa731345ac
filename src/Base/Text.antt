-- ===== src/Base/Text.antt =====
-- Python's operations on texts that several services use: `strip`, `rstrip("/")`, and the
-- comparison of a lower-cased text with a word.
use Prim.Native.Char.{code}
use Prim.Native.String.{◌++◌ as str_append}
use Prim.Native.String.append
use retail_ops_microservices.Base.{
  ℕ, ◌+◌, String, Bool, true, false, ◌&&◌, ◌||◌, ◌≡◌, refl, ap, ◌∙◌, leb, num_eq, if◌then◌else◌,
}

abbrev lower_code : ℕ → ℕ
lower_code n = if leb 65 n && leb n 90 then n + 32 else n

-- `scheme.lower() == word` for a word of ASCII letters and digits: no other character's lower case
-- is one of the letters of `bearer`, `true`, `yes` and `on`.
abbrev pub lower_equal : String → String → Bool
lower_equal String.[] String.[] = true
lower_equal String.[] (String.◌∷◌ d t) = false
lower_equal (String.◌∷◌ c s) String.[] = false
lower_equal (String.◌∷◌ c s) (String.◌∷◌ d t) =
    num_eq (lower_code (code c)) (code d) && lower_equal s t

-- `str.isspace` of a character
abbrev pub is_space : ℕ → Bool
is_space c =
    leb 9 c && leb c 13
    || leb 28 c && leb c 32
    || num_eq c 133
    || num_eq c 160
    || num_eq c 5760
    || leb 8192 c && leb c 8202
    || leb 8232 c && leb c 8233
    || num_eq c 8239
    || num_eq c 8287
    || num_eq c 12288

abbrev keep_unless : Bool → String → String → String
keep_unless true whole String.[] = String.[]
keep_unless true whole (String.◌∷◌ c s) = whole
keep_unless false whole s = whole

module _ (drops : ℕ → Bool) where
  -- The text without the characters at its end that `drops` holds of.
  abbrev pub stripped_back : String → String
  stripped_back String.[] = String.[]
  stripped_back (String.◌∷◌ c s) =
      let back = stripped_back s in keep_unless (drops (code c)) (String.◌∷◌ c back) back

  abbrev pub stripped_front : String → String
  stripped_front String.[] = String.[]
  stripped_front (String.◌∷◌ c s) =
      let front = stripped_front s in if drops (code c) then front else String.◌∷◌ c s

-- `text.strip()`
abbrev pub strip : String → String
strip t = stripped_front is_space (stripped_back is_space t)

-- `text.rstrip("/")`
unfoldable pub rstrip_slashes : String → String
rstrip_slashes t = stripped_back (num_eq 47) t

test_strip :
    (strip " \t a b \n" ≡ "a b")
    × (strip "  " ≡ "")
    × (rstrip_slashes "http://a/b//" ≡ "http://a/b")
    × (rstrip_slashes "//" ≡ "")
    × (lower_equal (strip " TRUE ") "true" ≡ true)
unfolding rstrip_slashes
test_strip = (refl, refl, refl, refl, refl)

-- A slash at the end makes no difference to `rstrip("/")`.
pub rstrip_slashes_append : (t : String) → rstrip_slashes (str_append t "/") ≡ rstrip_slashes t
unfolding rstrip_slashes
rstrip_slashes_append String.[] = refl
rstrip_slashes_append (String.◌∷◌ c s) =
    ap (stripped_back (num_eq 47)) (append.cons c s "/")
    ∙ ap (λ back. keep_unless (num_eq 47 (code c)) (String.◌∷◌ c back) back)
        (rstrip_slashes_append s)
