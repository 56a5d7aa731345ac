-- ===== src/Auth/Schemas/Names.antt =====
-- The usernames that the schemas accept, and what they leave in the table of users.
use Prim.Native.Char.{code}
use Prim.Native.String.{count}
use retail_ops_microservices.Base.{
  ℕ, String, true, false, Option, none, some, ◌≡◌, ◌≤◌, refl, sym, ap, arith, Bool-cases,
  if◌then◌else◌, inl, inr, List, [], ◌∷◌,
}
use retail_ops_microservices.Base.Text.{is_space, stripped_back, stripped_front, strip}
use retail_ops_microservices.Base.Utf8.RoundTrip.{to_char-code}
use mathlib.Core.Path.{subst}
use retail_ops_microservices.Base.Exec.{Result, ok, err, continue}
use retail_ops_microservices.Http.{HttpError}
use retail_ops_microservices.Auth.Security.{Crypto, AuthSecurityConfig}
use retail_ops_microservices.Auth.Users.{AuthUser}
use retail_ops_microservices.Auth.Service.{RegisterRequest, register}
use retail_ops_microservices.Auth.Service.Unique.{register-cases}
use retail_ops_microservices.Auth.Schemas.{
  EmailRules, RegisterBody, BodyField, or_unprocessable, username_field, with_name, with_fields,
  normalize_email, text_field, display_name_field, validate_register, post_register,
  lower_name_code, lower_name, is_name_code, all_name_codes, accepts_username,
  matches_username_pattern, normalize_username,
}

name_code-is_space : (n : ℕ) → is_name_code n ≡ true → is_space n ≡ false
name_code-is_space n h = ground arith

name_code-lower : (n : ℕ) → is_name_code n ≡ true → lower_name_code n ≡ n
name_code-lower n h = ground arith

name_back : (s : String) → all_name_codes s ≡ true → stripped_back is_space s ≡ s
unfolding all_name_codes
name_back String.[] h = refl
name_back (String.◌∷◌ c s) h =
    let hc : is_name_code (code c) ≡ true = ground arith in
    let hs : all_name_codes s ≡ true = ground arith in
    rw (name_back s hs, name_code-is_space (code c) hc) refl

name_front : (s : String) → all_name_codes s ≡ true → stripped_front is_space s ≡ s
unfolding all_name_codes
name_front String.[] h = refl
name_front (String.◌∷◌ c s) h =
    let hc : is_name_code (code c) ≡ true = ground arith in rw (name_code-is_space (code c) hc) refl

name_lower : (s : String) → all_name_codes s ≡ true → lower_name s ≡ s
unfolding all_name_codes lower_name
name_lower String.[] h = refl
name_lower (String.◌∷◌ c s) h =
    let hc : is_name_code (code c) ≡ true = ground arith in
    let hs : all_name_codes s ≡ true = ground arith in
    rw (name_lower s hs, name_code-lower (code c) hc, to_char-code c) refl

accepted_codes : (s : String) → accepts_username s ≡ true → all_name_codes s ≡ true
unfolding accepts_username matches_username_pattern all_name_codes
accepted_codes String.[] h = refl
accepted_codes (String.◌∷◌ c s) h = ground arith

-- An accepted name is its own normal form.
accepted_normal : (u : String) → accepts_username u ≡ true → normalize_username u ≡ some u
unfolding normalize_username
accepted_normal u h =
    let codes : all_name_codes u ≡ true = accepted_codes u h in
    rw (name_back u codes, name_front u codes, name_lower u codes, h) refl

if_accepted :
    (name u : String)
    → (if accepts_username name then some name else none) ≡ some u
    → accepts_username u ≡ true
if_accepted name u h = elim (Bool-cases (accepts_username name)) [
  | inl accepted ↦ grind arith
  | inr refused ↦ grind arith
]

-- What normalisation gives is accepted.
normalize_username-accepted :
    (value u : String) → normalize_username value ≡ some u → accepts_username u ≡ true
unfolding normalize_username
normalize_username-accepted value u h = if_accepted (lower_name (strip value)) u h

-- A name that is its own normal form and has 3 to 64 characters.
abbrev pub IsNormal : String → Type 0
IsNormal name = (normalize_username name ≡ some name) × (3 ≤ count name) × (count name ≤ 64)

abbrev pub NormalNames : List AuthUser → Type 0
NormalNames [] = Unit
NormalNames (u ∷ users) = IsNormal u.username × NormalNames users

accepted-IsNormal : (u : String) → accepts_username u ≡ true → IsNormal u
unfolding accepts_username
accepted-IsNormal u h = (accepted_normal u h, ground arith, ground arith)

err-ok : {A : Type 0} {e : HttpError} {a : A} → Path (Result HttpError A) (err e) (ok a) → ⊥
err-ok h = cc

read-accepted :
    (value name : String) (o : Option String)
    → normalize_username value ≡ o
    → or_unprocessable o ≡ ok name
    → accepts_username name ≡ true
read-accepted value name none read h = absurd (err-ok h)
read-accepted value name (some u) read h =
    let equal : u ≡ name = cc in
    subst (λ n. accepts_username n ≡ true) equal (normalize_username-accepted value u read)

username_field-accepted :
    (f : BodyField) (name : String) → username_field f ≡ ok name → accepts_username name ≡ true
unfolding username_field
username_field-accepted BodyField.missing name h = absurd (err-ok h)
username_field-accepted BodyField.null name h = absurd (err-ok h)
username_field-accepted BodyField.other_value name h = absurd (err-ok h)
username_field-accepted (BodyField.text value) name h =
    read-accepted value name (normalize_username value) refl h

module _ (rules : EmailRules) where
  with_fields-username :
      (name : String) (email password : Option String) (display : Option (Option String))
      (r : RegisterRequest)
      → with_fields rules name email password display ≡ ok r
      → r.username ≡ name
  with_fields-username name (some email) (some password) (some display) r h =
      let stored : RegisterRequest = record {
        username = name;
        email = email;
        password = password;
        display_name = display;
      } in
      let equal : r ≡ stored = cc in ap (λ x. x.username) equal
  with_fields-username name none password display r h = cc
  with_fields-username name (some email) none display r h = cc
  with_fields-username name (some email) (some password) none r h = cc

  with_name-IsNormal :
      (b : RegisterBody) (field : BodyField) (name : Result HttpError String) (r : RegisterRequest)
      → username_field field ≡ name
      → with_name rules b name ≡ ok r
      → IsNormal r.username
  with_name-IsNormal b field (err e) r read h = absurd (err-ok h)
  with_name-IsNormal b field (ok name) r read h =
      let kept : r.username ≡ name =
        with_fields-username name (normalize_email rules (text_field 0 256 b.email))
          (text_field 8 256 b.password) (display_name_field b.display_name) r h in
      subst IsNormal (sym kept) (accepted-IsNormal name (username_field-accepted field name read))

  module _ (c : Crypto) (config : AuthSecurityConfig) (user_id salt : String) where
    register-NormalNames :
        (r : RegisterRequest) (users : List AuthUser)
        → IsNormal r.username
        → NormalNames users
        → NormalNames (register c config user_id salt r users).1
    register-NormalNames r users n h = elim (register-cases c config user_id salt r users) [
      | inl same_ ↦ rw same_ h
      | inr (added, no_id, no_username, no_email) ↦ rw added (n, h)
    ]

    continue-NormalNames :
        (b : RegisterBody) (valid : Result HttpError RegisterRequest) (users : List AuthUser)
        → validate_register rules b ≡ valid
        → NormalNames users
        → NormalNames (continue valid (register c config user_id salt) users).1
    unfolding validate_register
    continue-NormalNames b (err e) users same_ h = h
    continue-NormalNames b (ok r) users same_ h =
        register-NormalNames r users
          (with_name-IsNormal b b.username (username_field b.username) r refl same_) h

    -- If every stored username has 3 to 64 characters and normalisation accepts it and leaves it as it
    -- is, the same holds after a registration with any body, however that is answered.
    pub post_register-NormalNames :
        (b : RegisterBody) (users : List AuthUser)
        → NormalNames users
        → NormalNames (post_register rules c config user_id salt b users).1
    unfolding post_register
    post_register-NormalNames b users h =
        continue-NormalNames b (validate_register rules b) users refl h
