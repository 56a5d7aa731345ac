-- ===== src/Auth/Service/Sessions.antt =====
-- Who a token stands for, from the registration to /auth/me.
use retail_ops_microservices.Base.{
  ℕ, ◌+◌, ◌*◌, ◌/◌, ◌≤◌, ◌<◌, String, ◌≡◌, refl, inl, inr, Bool, true, false, Option, none, some,
  List, ◌∷◌, Time, Option-cases, eq_refl, if◌then◌else◌,
}
use retail_ops_microservices.Base.Exec.{ok, err}
use retail_ops_microservices.Base.Rows.{find_row}
use retail_ops_microservices.Base.Int.{pos}
use retail_ops_microservices.Http.{conflict}
use retail_ops_microservices.Gateway.Access.{bearer_token}
use retail_ops_microservices.Auth.Security.{
  Crypto, Sound, AuthSecurityConfig, AccessTokenPayload, verify_password, create_access_token,
  decode_access_token,
}
use retail_ops_microservices.Auth.Users.{
  AuthUser, find_user_by_username, find_user_by_email, find_user_by_id,
}
use retail_ops_microservices.Auth.Service.{
  RegisterRequest, AuthUserResponse, user_response, unauthorized, user_of_payload, user_of_token,
  current_user_from_authorization, register, login_response, with_password, login, as_response, me,
}
use retail_ops_microservices.Auth.Service.Unique.{registration, register-stable, register_fresh}

active_only :
    (u : AuthUser) (a : AuthUserResponse) (b : Bool)
    → as_response (if b then ok u else err unauthorized) ≡ ok a
    → (b ≡ true) × (a ≡ user_response u)
active_only u a true h = (refl, cc)
active_only u a false h = cc

module _ (c : Crypto) (config : AuthSecurityConfig) where
  -- The tables that further registrations lead to.
  pub data Registrations (start : List AuthUser) : List AuthUser → Type 0 where
    here : Registrations start start
    next :
        {users : List AuthUser}
        → Registrations start users
        → (user_id salt : String) (r : RegisterRequest)
        → Registrations start (register c config user_id salt r users).1

  abbrev Known : AuthUser → List AuthUser → Type 0
  Known u users =
      (find_user_by_id u.id users ≡ some u) × (find_user_by_username u.username users ≡ some u)

  Known-stable :
      (u : AuthUser) {start users : List AuthUser}
      → Registrations start users
      → Known u start
      → Known u users
  Known-stable u here k = k
  Known-stable u (next steps user_id salt r) k =
      register-stable c config user_id salt r _ u (Known-stable u steps k)

  -- `me` answers with the active user that a decoded bearer token names, and with no one else.
  pub me_active :
      (now : Time) (authorization : Option String) (users : List AuthUser) (a : AuthUserResponse)
      → me c config now authorization users ≡ ok a
      → (text : String) × (token : String) × (p : AccessTokenPayload) × (u : AuthUser)
        × (authorization ≡ some text)
        × (bearer_token text ≡ some token)
        × (decode_access_token c config now token ≡ some p)
        × (find_user_by_id p.user_id users ≡ some u)
        × (u.is_active ≡ true)
        × (a ≡ user_response u)
  unfolding me current_user_from_authorization user_of_token user_of_payload
  me_active now none users a h = cc
  me_active now (some text) users a h = elim (Option-cases (bearer_token text)) [
    | inl e ↦ let h' : err unauthorized ≡ ok a = rw e at h in cc
    | inr (token, e) ↦ elim (Option-cases (decode_access_token c config now token)) [
      | inl d ↦ let h' : err unauthorized ≡ ok a = rw (e, d) at h in cc
      | inr (p, d) ↦ elim (Option-cases (find_user_by_id p.user_id users)) [
        | inl f ↦ let h' : err unauthorized ≡ ok a = rw (e, d, f) at h in cc
        | inr (u, f) ↦
            let (n, same) = active_only u a u.is_active (rw (e, d, f) at h) in
            (text, token, p, u, refl, e, d, f, n, same)
      ]
    ]
  ]

module _ (c : Crypto) (config : AuthSecurityConfig) (minutes : ℕ) (user_id salt : String)
    (r : RegisterRequest) (sound : Sound c user_id r.username)
    (lifetime : config.access_token_expire_minutes ≡ pos minutes) where
  abbrev pub account : AuthUser
  account = registration c config user_id salt r

  -- The token of a login at some time.
  abbrev token_at : Time → String
  token_at t = (create_access_token c config t user_id r.username).value

  Known-registration : (users : List AuthUser) → Known c config account (account ∷ users)
  unfolding find_user_by_id find_user_by_username find_row
  Known-registration users = (rw (eq_refl user_id) refl, rw (eq_refl r.username) refl)

  verify_own : verify_password c r.password (some (c.hash salt r.password)) ≡ true
  unfolding verify_password
  verify_own =
      rw (sound.hash_present salt r.password, verify_password, sound.hash_verifies salt r.password)
        refl

  login-registration :
      (t : Time) (users : List AuthUser)
      → find_user_by_username r.username users ≡ some account
      → login c config t (record { username = r.username; password = r.password }) users
        ≡ ok (login_response c config account (create_access_token c config t user_id r.username))
  unfolding login with_password
  login-registration t users found = rw (found, with_password, verify_own) refl

  decoded :
      (t now : Time)
      → t ≤ now
      → now < (t + minutes * 60000000) / 1000000 * 1000000
      → decode_access_token c config now (token_at t)
        ≡ some (record {
          user_id = user_id;
          username = some r.username;
          expires_at = (t + minutes * 60000000) / 1000000;
        })
  unfolding decode_access_token create_access_token
  decoded t now later valid =
      rw
        (
          lifetime,
          decode_access_token,
          sound.token_decodes config.jwt_secret_key config.jwt_algorithm t (t + minutes * 60000000)
              now later valid,
        )
        refl

  me-registration :
      (t now : Time) (authorization : String) (users : List AuthUser)
      → t ≤ now
      → now < (t + minutes * 60000000) / 1000000 * 1000000
      → bearer_token authorization ≡ some (token_at t)
      → find_user_by_id user_id users ≡ some account
      → me c config now (some authorization) users ≡ ok (user_response account)
  unfolding me current_user_from_authorization user_of_token user_of_payload
  me-registration t now authorization users later valid bearer found =
      rw (bearer, decoded t now later valid, found) refl

  -- With hashes and tokens that work as documented and a lifetime of some minutes: a registration
  -- in a table without the id, the username and the e-mail address is answered with the new user.
  -- After it and any further registrations, a login with that username and password gets a token,
  -- and /auth/me with that token, from the login until the second in which it expires, is answered
  -- with the same user.
  pub register-login-me :
      (users later_users : List AuthUser) (t now : Time) (authorization : String)
      → find_user_by_id user_id users ≡ none
      → find_user_by_username r.username users ≡ none
      → find_user_by_email r.email users ≡ none
      → Registrations c config (register c config user_id salt r users).1 later_users
      → t ≤ now
      → now < (t + minutes * 60000000) / 1000000 * 1000000
      → bearer_token authorization ≡ some (token_at t)
      → ((register c config user_id salt r users).0 ≡ ok (user_response account))
        × (login c config t (record { username = r.username; password = r.password }) later_users
            ≡ ok (
                login_response c config account
                  (create_access_token c config t user_id r.username)))
        × (me c config now (some authorization) later_users ≡ ok (user_response account))
  register-login-me users later_users t now authorization no_id no_username no_email steps later
        valid bearer =
      let done = register_fresh c config user_id salt r users no_id no_username no_email in
      let (by_id, by_username) =
        Known-stable c config account steps (rw done (Known-registration users)) in
      (
        rw done refl,
        login-registration t later_users by_username,
        me-registration t now authorization later_users later valid bearer by_id,
      )

module _ (c : Crypto) (config : AuthSecurityConfig) where
  -- After a registration with a new id, username and e-mail address, and after any further
  -- registrations, a registration with the same username is refused with 409 for the username, and
  -- changes nothing.
  pub register-duplicate :
      (user_id salt user_id' salt' : String) (r r' : RegisterRequest) (users later : List AuthUser)
      → find_user_by_id user_id users ≡ none
      → find_user_by_username r.username users ≡ none
      → find_user_by_email r.email users ≡ none
      → Registrations c config (register c config user_id salt r users).1 later
      → r'.username ≡ r.username
      → register c config user_id' salt' r' later
        ≡ (err (conflict "Username already exists"), later)
  unfolding register find_user_by_id find_user_by_username find_row
  register-duplicate user_id salt user_id' salt' r r' users later no_id no_name no_email steps e =
      let u = registration c config user_id salt r in
      let made = register_fresh c config user_id salt r users no_id no_name no_email in
      let (by_id, by_name) =
        Known-stable c config u steps
          (rw made (rw (eq_refl user_id) refl, rw (eq_refl r.username) refl)) in
      rw (e, by_name) refl
