-- ===== src/Auth/Service/Unique.antt =====
-- What registrations keep in the table of users, and what they leave as it was.
use retail_ops_microservices.Base.{
  String, ◌≡◌, refl, ◌⊎◌, inl, inr, none, some, List, ◌∷◌, ◌==◌, arith, Bool-cases, Option-cases,
  eq_iff,
}
use mathlib.Core.Path.{subst}
use retail_ops_microservices.Base.Exec.{ok}
use retail_ops_microservices.Base.Rows.{find_row}
use retail_ops_microservices.Auth.Security.{Crypto, AuthSecurityConfig, hash_password}
use retail_ops_microservices.Auth.Users.{
  AuthUser, id_of, username_of, new_user, find_user_by_username, find_user_by_email,
  find_user_by_id, create_user,
}
use retail_ops_microservices.Auth.Service.{RegisterRequest, user_response, register}

found_behind :
    (key : AuthUser → String) (x : AuthUser) (k : String) (users : List AuthUser) (u : AuthUser)
    → find_row key (key x) users ≡ none
    → find_row key k users ≡ some u
    → find_row key k (x ∷ users) ≡ some u
unfolding find_row
found_behind key x k users u free found = elim (Bool-cases (key x == k)) [
  | inr other ↦ rw other found
  | inl same_ ↦
      let e : key x ≡ k = ground (arith, eq_iff (key x) k) in
      absurd (
        let clash : find_row key k users ≡ none = subst (λ j. find_row key j users ≡ none) e free in
        cc)
]

module _ (c : Crypto) (config : AuthSecurityConfig) (user_id salt : String)
    (r : RegisterRequest) where
  -- The row that a registration writes.
  abbrev pub registration : AuthUser
  registration = new_user user_id (record {
    username = r.username;
    email = r.email;
    display_name = r.display_name;
    password_hash = hash_password c salt r.password;
  })

  -- A registration is refused and changes nothing, or adds its row to a table without its id, its
  -- username and its e-mail address.
  pub register-cases :
      (users : List AuthUser)
      → ((register c config user_id salt r users).1 ≡ users)
        ⊎ ((register c config user_id salt r users
              ≡ (ok (user_response registration), registration ∷ users))
            × (find_user_by_id user_id users ≡ none)
            × (find_user_by_username r.username users ≡ none)
            × (find_user_by_email r.email users ≡ none))
  unfolding register create_user
  register-cases users = elim (Option-cases (find_user_by_username r.username users)) [
    | inr (u, found) ↦ inl (rw found refl)
    | inl no_username ↦ elim (Option-cases (find_user_by_email r.email users)) [
      | inr (u, found) ↦ inl (rw (no_username, found) refl)
      | inl no_email ↦ elim (Option-cases (find_user_by_id user_id users)) [
        | inr (u, found) ↦ inl (rw (no_username, no_email, found) refl)
        | inl no_id ↦ inr (rw (no_username, no_email, no_id) refl, no_id, no_username, no_email)
      ]
    ]
  ]

  -- A user who is found by id and by username is found after a registration.
  pub register-stable :
      (users : List AuthUser) (u : AuthUser)
      → (find_user_by_id u.id users ≡ some u) × (find_user_by_username u.username users ≡ some u)
      → (find_user_by_id u.id (register c config user_id salt r users).1 ≡ some u)
        × (find_user_by_username u.username (register c config user_id salt r users).1 ≡ some u)
  unfolding find_user_by_id find_user_by_username
  register-stable users u (a, b) = elim (register-cases users) [
    | inl same ↦ rw same (a, b)
    | inr (done, no_id, no_username, no_email) ↦ rw done (
      found_behind id_of registration u.id users u no_id a,
      found_behind username_of registration u.username users u no_username b,
    )
  ]

  -- In a table without the id, the username and the e-mail address it adds its row.
  pub register_fresh :
      (users : List AuthUser)
      → find_user_by_id user_id users ≡ none
      → find_user_by_username r.username users ≡ none
      → find_user_by_email r.email users ≡ none
      → register c config user_id salt r users
        ≡ (ok (user_response registration), registration ∷ users)
  unfolding register create_user
  register_fresh users no_id no_username no_email = rw (no_username, no_email, no_id) refl
