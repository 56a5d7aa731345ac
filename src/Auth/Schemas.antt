-- ===== src/Auth/Schemas.antt =====
-- The request bodies of services/auth-service/src/auth_service/schemas.py before and after their
-- validation, and the endpoints over them. The library email_validator and the lower case of an
-- e-mail address are parameters.
pub mod Names
use Prim.Native.Char.{code}
use Prim.Native.String.{count}
use retail_ops_microservices.Base.{
  ℕ, ◌+◌, String, Bool, true, false, ◌&&◌, ◌||◌, Option, none, some, List, Time, leb, num_eq,
  or_else, if◌then◌else◌,
}
use retail_ops_microservices.Base.Exec.{Result, ok, err, Exec, continue}
use retail_ops_microservices.Base.Text.{strip}
use retail_ops_microservices.Base.Utf8.{to_char}
use retail_ops_microservices.Http.{HttpError, unprocessable, server_error}
use retail_ops_microservices.Auth.Security.{Crypto, AuthSecurityConfig}
use retail_ops_microservices.Auth.Users.{AuthUser}
use retail_ops_microservices.Auth.Service.{
  RegisterRequest, LoginRequest, AuthUserResponse, LoginResponse, register, login,
}

-- A field of a JSON body: missing, null, a text, or any other value.
pub data BodyField : Type 0 where
  missing : BodyField
  null : BodyField
  text : String → BodyField
  other_value : BodyField

pub record RegisterBody : Type 0 where
  pub username : BodyField
  pub email : BodyField
  pub password : BodyField
  pub display_name : BodyField

pub record LoginBody : Type 0 where
  pub username : BodyField
  pub password : BodyField

-- The lower case of a character, for the characters that can stand in an accepted name: beside the
-- capitals only the Kelvin sign has a lower case that the pattern takes.
abbrev pub lower_name_code : ℕ → ℕ
lower_name_code n = if leb 65 n && leb n 90 then n + 32 else if num_eq n 8490 then 107 else n

unfoldable pub lower_name : String → String
unfolding to_char
lower_name String.[] = String.[]
lower_name (String.◌∷◌ c s) =
    String.◌∷◌ (or_else (to_char (lower_name_code (code c))) c) (lower_name s)

abbrev is_name_start : ℕ → Bool
is_name_start n = leb 97 n && leb n 122 || leb 48 n && leb n 57

abbrev pub is_name_code : ℕ → Bool
is_name_code n = is_name_start n || num_eq n 95 || num_eq n 45

unfoldable pub all_name_codes : String → Bool
all_name_codes String.[] = true
all_name_codes (String.◌∷◌ c s) = is_name_code (code c) && all_name_codes s

-- USERNAME_PATTERN
unfoldable pub matches_username_pattern : String → Bool
unfolding all_name_codes
matches_username_pattern String.[] = false
matches_username_pattern (String.◌∷◌ c s) =
    is_name_start (code c) && all_name_codes s && leb 2 (count s) && leb (count s) 63

unfoldable pub accepts_username : String → Bool
unfolding matches_username_pattern
accepts_username t = leb 3 (count t) && leb (count t) 64 && matches_username_pattern t

-- `value.strip().lower()` and the constraints of the field.
unfoldable pub normalize_username : String → Option String
unfolding lower_name accepts_username
normalize_username value =
    let name = lower_name (strip value) in if accepts_username name then some name else none

abbrev pub or_unprocessable : {A : Type 0} → Option A → Result HttpError A
or_unprocessable none = err unprocessable
or_unprocessable (some a) = ok a

-- The validator runs before the type of the value is checked: what is no text has no `strip`.
unfoldable pub username_field : BodyField → Result HttpError String
unfolding normalize_username
username_field missing = err unprocessable
username_field null = err server_error
username_field other_value = err server_error
username_field (text value) = or_unprocessable (normalize_username value)

-- A text within bounds.
abbrev pub text_field : ℕ → ℕ → BodyField → Option String
text_field low high (text value) =
    if leb low (count value) && leb (count value) high then some value else none
text_field low high missing = none
text_field low high null = none
text_field low high other_value = none

abbrev pub display_name_field : BodyField → Option (Option String)
display_name_field missing = some none
display_name_field null = some none
display_name_field other_value = none
display_name_field (text value) = if leb (count value) 256 then some (some value) else none

abbrev login_password : BodyField → Option String
login_password (text value) = some value
login_password missing = none
login_password null = none
login_password other_value = none

-- `validate_email(…).normalized`, none where it raises EmailNotValidError, and `str.lower`
pub record EmailRules : Type 0 where
  pub normalized : String → Option String
  pub lower : String → String

module _ (rules : EmailRules) where
  abbrev pub normalize_email : Option String → Option String
  normalize_email none = none
  normalize_email (some value) = elim (rules.normalized (strip value)) [
    | none ↦ none
    | some email ↦ some (rules.lower email)
  ]

  abbrev pub with_fields :
      String
      → Option String
      → Option String
      → Option (Option String)
      → Result HttpError RegisterRequest
  with_fields name (some email) (some password) (some display) =
      ok (record { username = name; email = email; password = password; display_name = display })
  with_fields name none password display = err unprocessable
  with_fields name (some email) none display = err unprocessable
  with_fields name (some email) (some password) none = err unprocessable

  abbrev pub with_name : RegisterBody → Result HttpError String → Result HttpError RegisterRequest
  with_name b (err e) = err e
  with_name b (ok name) =
      with_fields name (normalize_email (text_field 0 256 b.email)) (text_field 8 256 b.password)
        (display_name_field b.display_name)

  unfoldable pub validate_register : RegisterBody → Result HttpError RegisterRequest
  unfolding normalize_username
  validate_register b = with_name b (username_field b.username)

  -- POST /auth/register, with the new user's id and the salt of the hash.
  unfoldable pub post_register :
      Crypto
      → AuthSecurityConfig
      → String
      → String
      → RegisterBody
      → Exec (List AuthUser) HttpError AuthUserResponse
  unfolding validate_register register
  post_register c config user_id salt b =
      continue (validate_register b) (register c config user_id salt)

abbrev with_password : String → Option String → Result HttpError LoginRequest
with_password name none = err unprocessable
with_password name (some password) = ok (record { username = name; password = password })

unfoldable validate_login : LoginBody → Result HttpError LoginRequest
unfolding normalize_username
validate_login b = elim (username_field b.username) [
  | err e ↦ err e
  | ok name ↦ with_password name (login_password b.password)
]

-- POST /auth/login
unfoldable post_login :
    Crypto → AuthSecurityConfig → Time → LoginBody → List AuthUser → Result HttpError LoginResponse
unfolding validate_login login
post_login c config now b users = elim (validate_login b) [
  | err e ↦ err e
  | ok r ↦ login c config now r users
]
