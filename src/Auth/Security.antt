-- ===== src/Auth/Security.antt =====
-- services/auth-service/src/auth_service/security.py. Hashing passwords and signing tokens (pwdlib
-- and PyJWT) are parameters.
use retail_ops_microservices.Base.{
  ℕ, suc, ◌+◌, ◌-◌, ◌*◌, ◌/◌, ◌≤◌, ◌<◌, String, Bool, true, false, Option, none, some, List, [],
  ◌∷◌, ◌≡◌, ◌==◌, Time, present, or_else, if◌then◌else◌,
}
use retail_ops_microservices.Base.Int.{ℤ, pos, negsuc}
use retail_ops_microservices.Base.Utf8.{encode}
use retail_ops_microservices.Base.Decimal.{int}

-- A value in a token's payload; `other_claim` is any other.
pub data Claim : Type 0 where
  absent : Claim
  text_claim : String → Claim
  int_claim : ℕ → Claim
  other_claim : Claim

pub record Payload : Type 0 where
  pub sub : Claim
  pub username : Claim
  pub exp : Claim

pub record AuthSecurityConfig : Type 0 where
  pub jwt_secret_key : String
  pub jwt_algorithm : String
  pub access_token_expire_minutes : ℤ

pub record AccessToken : Type 0 where
  pub value : String
  pub expires_in : ℤ

pub record AccessTokenPayload : Type 0 where
  pub user_id : String
  pub username : Option String
  pub expires_at : ℕ

pub record Crypto : Type 0 where
  -- with the salt that the hasher draws
  pub hash : String → String → String
  -- `none` where `verify` raises
  pub verify : String → String → Option Bool
  -- of `sub`, `username`, `iat` and `exp`, with the secret and the algorithm
  pub encode_token : String → String → Time → Time → String → String → String
  -- with the secret, the algorithm and the time; `none` where it raises
  pub decode_token : String → String → String → Time → Option Payload

-- What pwdlib and PyJWT promise for a user: a hash is a text that its password verifies, and a
-- token is decoded with the same secret and algorithm from its `iat` until the second of its `exp`.
pub record Sound (c : Crypto) (sub username : String) : Type 0 where
  pub hash_verifies :
      (salt password : String) → c.verify password (c.hash salt password) ≡ some true
  pub hash_present : (salt password : String) → (c.hash salt password == "") ≡ false
  pub token_decodes :
      (secret algorithm : String) (iat exp now : Time)
      → iat ≤ now
      → now < exp / 1000000 * 1000000
      → c.decode_token (c.encode_token sub username iat exp secret algorithm) secret algorithm now
        ≡ some (record {
          sub = text_claim sub;
          username = text_claim username;
          exp = int_claim (exp / 1000000);
        })

-- `source.get(name)`
abbrev pub environment : String → List (String × String) → Option String
environment name [] = none
environment name ((k, v) ∷ env) = if k == name then some v else environment name env

-- A lifetime that is no number counts as the default.
unfoldable pub get_auth_security_config : List (String × String) → AuthSecurityConfig
unfolding encode int
get_auth_security_config env = record {
  jwt_secret_key = or_else (environment "JWT_SECRET_KEY" env) "change-me-local-development-secret";
  jwt_algorithm = or_else (environment "JWT_ALGORITHM" env) "HS256";
  access_token_expire_minutes =
      or_else (int (encode (or_else (environment "JWT_ACCESS_TOKEN_EXPIRE_MINUTES" env) "60")))
        (pos 60);
}

module _ (c : Crypto) where
  abbrev pub hash_password : String → String → String
  hash_password salt password = c.hash salt password

  -- No hash, an empty one, and a hash that makes the library raise are not verified.
  unfoldable pub verify_password : String → Option String → Bool
  verify_password password password_hash = elim (present password_hash) [
    | none ↦ false
    | some hashed ↦ or_else (c.verify password hashed) false
  ]

  -- A time some minutes later, or earlier for a negative number.
  abbrev minutes_later : Time → ℤ → Time
  minutes_later t (pos m) = t + m * 60000000
  minutes_later t (negsuc m) = t - suc m * 60000000

  abbrev in_seconds : ℤ → ℤ
  in_seconds (pos m) = pos (m * 60)
  in_seconds (negsuc m) = negsuc (m * 60 + 59)

  unfoldable pub create_access_token : AuthSecurityConfig → Time → String → String → AccessToken
  create_access_token config issued_at user_id username = record {
    value =
        c.encode_token user_id username issued_at
          (minutes_later issued_at config.access_token_expire_minutes) config.jwt_secret_key
          config.jwt_algorithm;
    expires_in = in_seconds config.access_token_expire_minutes;
  }

  abbrev with_username : String → ℕ → Claim → Option AccessTokenPayload
  with_username user_id expires_at absent =
      some (record { user_id = user_id; username = none; expires_at = expires_at })
  with_username user_id expires_at (text_claim t) =
      some (record { user_id = user_id; username = some t; expires_at = expires_at })
  with_username user_id expires_at (int_claim n) = none
  with_username user_id expires_at other_claim = none

  abbrev checked_payload : Claim → Claim → Claim → Option AccessTokenPayload
  checked_payload (text_claim user_id) username (int_claim expires_at) =
      with_username user_id expires_at username
  checked_payload _ _ _ = none

  -- `none` is InvalidAccessTokenError.
  unfoldable pub decode_access_token :
      AuthSecurityConfig → Time → String → Option AccessTokenPayload
  decode_access_token config now token =
      elim (c.decode_token token config.jwt_secret_key config.jwt_algorithm now) [
        | none ↦ none
        | some p ↦ checked_payload p.sub p.username p.exp
      ]
