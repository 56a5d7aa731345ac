-- ===== src/Auth/Tests.antt =====
-- The endpoints at concrete inputs. A token is the time of its expiry in decimal, and it names one
-- user.
use retail_ops_microservices.Base.{
  ℕ, ◌/◌, String, ◌≡◌, refl, true, none, some, List, [], ◌∷◌, ◌==◌, Option, arith, or_else,
}
use retail_ops_microservices.Base.Exec.{ok, err}
use retail_ops_microservices.Base.Int.{ℤ, pos, negsuc}
use retail_ops_microservices.Base.Utf8.{encode, decode}
use retail_ops_microservices.Base.Decimal.{decimal, int}
use retail_ops_microservices.Base.Decimal.RoundTrip.{decimal-All, int-decimal}
use retail_ops_microservices.Redis.Reader.RoundTrip.{decode_digits}
use retail_ops_microservices.Gateway.Access.{bearer_token}
use retail_ops_microservices.Auth.Security.{
  Crypto, Sound, Payload, text_claim, int_claim, AuthSecurityConfig, AccessTokenPayload,
  get_auth_security_config, create_access_token, decode_access_token,
}
use retail_ops_microservices.Auth.Users.{
  AuthUser, find_user_by_id, find_user_by_username, find_user_by_email,
}
use retail_ops_microservices.Auth.Service.{
  RegisterRequest, user_response, register, login_response, login, me,
  current_user_from_authorization, user_of_token, user_of_payload,
}
use retail_ops_microservices.Http.{conflict, unprocessable, server_error}
use retail_ops_microservices.Auth.Schemas.{
  EmailRules, RegisterBody, null, text, other_value, post_register, validate_register,
  username_field, normalize_username,
}
use retail_ops_microservices.Auth.Schemas.Names.{NormalNames, IsNormal, post_register-NormalNames}
use retail_ops_microservices.Auth.Service.Unique.{registration}
use retail_ops_microservices.Auth.Service.Sessions.{
  here, next, account, me_active, register-login-me, register-duplicate,
}

abbrev of_seconds : Option ℤ → Option Payload
of_seconds (some (pos n)) = some (record {
  sub = text_claim "user-1";
  username = text_claim "ann";
  exp = int_claim (n / 1000000);
})
of_seconds (some (negsuc n)) = none
of_seconds none = none

abbrev toy : Crypto
unfolding decode decimal int encode
toy = record {
  hash = λ salt password. "hash";
  verify = λ password hashed. some (hashed == "hash");
  encode_token = λ sub username iat exp secret algorithm. or_else (decode (decimal exp)) "";
  decode_token = λ token secret algorithm now. of_seconds (int (encode token));
}

read_back : (n : ℕ) → int (encode (or_else (decode (decimal n)) "")) ≡ some (pos n)
unfolding decode
read_back n =
    let (t, e, f) = decode_digits (decimal n) (decimal-All n) in rw (e, f, int-decimal n) refl

toy-Sound : Sound toy "user-1" "ann"
unfolding toy
toy-Sound = record {
  hash_verifies = λ salt password. refl;
  hash_present = λ salt password. refl;
  token_decodes = λ secret algorithm iat exp now later valid. rw (read_back exp) refl;
}

abbrev config : AuthSecurityConfig
config = record {
  jwt_secret_key = "s";
  jwt_algorithm = "HS256";
  access_token_expire_minutes = pos 60;
}

default_config :
    get_auth_security_config
      (("JWT_SECRET_KEY", "s") ∷ ("JWT_ACCESS_TOKEN_EXPIRE_MINUTES", "x") ∷ [])
    ≡ config
unfolding get_auth_security_config
default_config = refl

abbrev ann : RegisterRequest
ann = record {
  username = "ann";
  email = "ann@example.test";
  password = "password";
  display_name = none;
}

abbrev bob : RegisterRequest
bob = record {
  username = "bob";
  email = "bob@example.test";
  password = "password";
  display_name = some "Bob";
}

abbrev one_user : List AuthUser
one_user = registration toy config "user-1" "" ann ∷ []

me_active_example :
    (text : String) × (token : String) × (p : AccessTokenPayload) × (u : AuthUser) × (some
        "Bearer 3600000000"
      ≡ some text)
    × (bearer_token text ≡ some token)
    × (decode_access_token toy config 5 token ≡ some p)
    × (find_user_by_id p.user_id one_user ≡ some u)
    × (u.is_active ≡ true)
    × (user_response (registration toy config "user-1" "" ann) ≡ user_response u)
unfolding me current_user_from_authorization user_of_token user_of_payload toy find_user_by_id
me_active_example =
    me_active toy config 5 (some "Bearer 3600000000") one_user
      (user_response (registration toy config "user-1" "" ann)) refl

abbrev two_users : List AuthUser
two_users = (register toy config "user-2" "" bob (register toy config "user-1" "" ann []).1).1

register-login-me_example :
    ((register toy config "user-1" "" ann []).0
      ≡ ok (user_response (account toy config 60 "user-1" "" ann toy-Sound refl)))
    × (login toy config 0 (record { username = "ann"; password = "password" }) two_users
        ≡ ok (
            login_response toy config
              (account toy config 60 "user-1" "" ann toy-Sound refl)
              (create_access_token toy config 0 "user-1" "ann")))
    × (me toy config 5 (some "Bearer 3600000000") two_users
        ≡ ok (user_response (account toy config 60 "user-1" "" ann toy-Sound refl)))
unfolding find_user_by_id find_user_by_username find_user_by_email create_access_token toy
    bearer_token
register-login-me_example =
    register-login-me toy config 60 "user-1" "" ann toy-Sound refl [] two_users 0 5
      "Bearer 3600000000" refl refl refl (next here "user-2" "" bob) (omega arith) (omega arith)
      refl

register-duplicate_example :
    register toy config "user-3" "" (record bob { username = "ann" }) two_users
    ≡ (err (conflict "Username already exists"), two_users)
unfolding find_user_by_id find_user_by_username find_user_by_email
register-duplicate_example =
    register-duplicate toy config "user-1" "" "user-3" "" ann (record bob { username = "ann" }) []
      two_users refl refl refl (next here "user-2" "" bob) refl

abbrev plain_rules : EmailRules
plain_rules = record { normalized = λ t. some t; lower = λ t. t }

abbrev ann_body : RegisterBody
ann_body = record {
  username = text " Ann_7 ";
  email = text "ann@shop.test";
  password = text "long enough";
  display_name = null;
}

abbrev old_user : AuthUser
old_user = record {
  id = "user-2";
  username = "bob";
  email = "bob@shop.test";
  display_name = none;
  password_hash = none;
  is_active = true;
}

bob-IsNormal : IsNormal "bob"
unfolding normalize_username
bob-IsNormal = (refl, omega arith, omega arith)

-- A name that is no text raises instead of being refused.
test_post_register :
    ((post_register plain_rules toy config "user-1" "salt" ann_body (old_user ∷ [])).1
      ≡ registration toy config "user-1" "salt" (record {
        username = "ann_7";
        email = "ann@shop.test";
        password = "long enough";
        display_name = none;
      })
        ∷ old_user
        ∷ [])
    × ((post_register plain_rules toy config "user-1" "salt"
          (record ann_body { username = text "a b" })
          []).0
        ≡ err unprocessable)
    × ((post_register plain_rules toy config "user-1" "salt"
          (record ann_body { username = other_value })
          []).0
        ≡ err server_error)
unfolding post_register validate_register username_field normalize_username register
test_post_register = (refl, refl, refl)

post_register-NormalNames_example :
    NormalNames (post_register plain_rules toy config "user-1" "salt" ann_body (old_user ∷ [])).1
post_register-NormalNames_example =
    post_register-NormalNames plain_rules toy config "user-1" "salt" ann_body (old_user ∷ [])
      (bob-IsNormal, tt)
