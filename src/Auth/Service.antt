-- ===== src/Auth/Service.antt =====
-- The endpoints of services/auth-service/src/auth_service/main.py, over requests that
-- Auth/Schemas has accepted and normalised.
pub mod Unique
pub mod Sessions
use retail_ops_microservices.Base.{
  String, Bool, true, false, Option, none, some, List, Time, is_some, if◌then◌else◌,
}
use retail_ops_microservices.Base.Exec.{Result, ok, err, Exec}
use retail_ops_microservices.Base.Int.{ℤ}
use retail_ops_microservices.Http.{HttpError, http_error, conflict}
use retail_ops_microservices.Base.Text.{lower_equal}
use retail_ops_microservices.Gateway.Access.{partition_space, bearer_token}
use retail_ops_microservices.Auth.Security.{
  Crypto, AuthSecurityConfig, AccessToken, AccessTokenPayload, hash_password, verify_password,
  create_access_token, decode_access_token,
}
use retail_ops_microservices.Auth.Users.{
  AuthUser, CreateAuthUser, DuplicateAuthUserError, find_user_by_username, find_user_by_email,
  find_user_by_id, create_user,
}

pub record RegisterRequest : Type 0 where
  pub username : String
  pub email : String
  pub password : String
  pub display_name : Option String

pub record LoginRequest : Type 0 where
  pub username : String
  pub password : String

pub record AuthUserResponse : Type 0 where
  pub user_id : String
  pub username : String
  pub email : String
  pub display_name : Option String
  pub is_active : Bool

pub record LoginResponse : Type 0 where
  pub user_id : String
  pub username : String
  pub email : String
  pub display_name : Option String
  pub access_token : String
  pub token_type : String
  pub expires_in : ℤ

abbrev pub user_response : AuthUser → AuthUserResponse
user_response u = record {
  user_id = u.id;
  username = u.username;
  email = u.email;
  display_name = u.display_name;
  is_active = u.is_active;
}

abbrev pub unauthorized : HttpError
unauthorized = http_error 401 "Invalid authentication credentials"

-- An active user, and 401 for any other or none.
abbrev active_user : Option AuthUser → Result HttpError AuthUser
active_user none = err unauthorized
active_user (some u) = if u.is_active then ok u else err unauthorized

abbrev registered :
    Result DuplicateAuthUserError AuthUser × List AuthUser
    → Result HttpError AuthUserResponse × List AuthUser
registered (ok u, users) = (ok (user_response u), users)
registered (err e, users) = (err (conflict "Username or email already exists"), users)

abbrev pub as_response : Result HttpError AuthUser → Result HttpError AuthUserResponse
as_response (ok u) = ok (user_response u)
as_response (err e) = err e

module _ (c : Crypto) (config : AuthSecurityConfig) where
  unfoldable pub user_of_payload :
      Option AccessTokenPayload → List AuthUser → Result HttpError AuthUser
  unfolding find_user_by_id
  user_of_payload none users = err unauthorized
  user_of_payload (some p) users = active_user (find_user_by_id p.user_id users)

  unfoldable pub user_of_token : Time → Option String → List AuthUser → Result HttpError AuthUser
  unfolding decode_access_token user_of_payload
  user_of_token now none users = err unauthorized
  user_of_token now (some token) users =
      user_of_payload (decode_access_token c config now token) users

  unfoldable pub current_user_from_authorization :
      Time → Option String → List AuthUser → Result HttpError AuthUser
  unfolding bearer_token user_of_token
  current_user_from_authorization now none users = err (http_error 401 "Missing bearer token")
  current_user_from_authorization now (some authorization) users =
      user_of_token now (bearer_token authorization) users

  -- With the new user's id and the salt of the hash. Both lookups come before the insertion.
  unfoldable pub register :
      String → String → RegisterRequest → Exec (List AuthUser) HttpError AuthUserResponse
  unfolding find_user_by_username find_user_by_email create_user
  register user_id salt r users =
      if is_some (find_user_by_username r.username users)
      then (err (conflict "Username already exists"), users)
      else if is_some (find_user_by_email r.email users)
      then (err (conflict "Email already exists"), users)
      else registered (
          create_user user_id
            (record {
              username = r.username;
              email = r.email;
              display_name = r.display_name;
              password_hash = hash_password c salt r.password;
            })
            users)

  abbrev pub login_response : AuthUser → AccessToken → LoginResponse
  login_response u token = record {
    user_id = u.id;
    username = u.username;
    email = u.email;
    display_name = u.display_name;
    access_token = token.value;
    token_type = "bearer";
    expires_in = token.expires_in;
  }

  abbrev pub refused : HttpError
  refused = http_error 401 "Invalid username or password"

  unfoldable pub with_password : Time → String → Option AuthUser → Result HttpError LoginResponse
  unfolding verify_password create_access_token
  with_password now password none = err refused
  with_password now password (some u) =
      if u.is_active
      then if verify_password c password u.password_hash
        then ok (login_response u (create_access_token c config now u.id u.username))
        else err refused
      else err refused

  unfoldable pub login : Time → LoginRequest → List AuthUser → Result HttpError LoginResponse
  unfolding find_user_by_username with_password
  login now r users = with_password now r.password (find_user_by_username r.username users)

  unfoldable pub me : Time → Option String → List AuthUser → Result HttpError AuthUserResponse
  unfolding current_user_from_authorization
  me now authorization users = as_response (current_user_from_authorization now authorization users)
