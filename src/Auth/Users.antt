-- ===== src/Auth/Users.antt =====
-- services/auth-service/src/auth_service/repository.py over the table auth_users of migrations 0001
-- and 0002: the id is the primary key, usernames and e-mail addresses are unique.
use retail_ops_microservices.Base.{
  String, Bool, true, ◌||◌, Option, some, List, ◌∷◌, or_else, present, is_some, if◌then◌else◌,
}
use retail_ops_microservices.Base.Exec.{ok, err, Exec}
use retail_ops_microservices.Base.Rows.{find_row}

pub record CreateAuthUser : Type 0 where
  pub username : String
  pub email : String
  pub display_name : Option String
  pub password_hash : String

pub record AuthUser : Type 0 where
  pub id : String
  pub username : String
  pub email : String
  pub display_name : Option String
  pub password_hash : Option String
  pub is_active : Bool

abbrev pub id_of : AuthUser → String
id_of u = u.id

abbrev pub username_of : AuthUser → String
username_of u = u.username

abbrev email_of : AuthUser → String
email_of u = u.email

-- `_find_user` on each of its three columns
unfoldable pub find_user_by_username : String → List AuthUser → Option AuthUser
unfolding find_row
find_user_by_username name users = find_row username_of name users

unfoldable pub find_user_by_email : String → List AuthUser → Option AuthUser
unfolding find_row
find_user_by_email email users = find_row email_of email users

unfoldable pub find_user_by_id : String → List AuthUser → Option AuthUser
unfolding find_row
find_user_by_id id users = find_row id_of id users

pub data DuplicateAuthUserError : Type 0 where
  duplicate_auth_user : DuplicateAuthUserError

-- The new row; its id is `user-` and the uuid.
abbrev pub new_user : String → CreateAuthUser → AuthUser
new_user user_id user = record {
  id = user_id;
  username = user.username;
  email = user.email;
  display_name = some (or_else (present user.display_name) user.username);
  password_hash = some user.password_hash;
  is_active = true;
}

-- A row with one of the three in use is refused by a unique constraint.
unfoldable pub create_user :
    String → CreateAuthUser → Exec (List AuthUser) DuplicateAuthUserError AuthUser
unfolding find_user_by_username find_user_by_email find_user_by_id
create_user user_id user users =
    if is_some (find_user_by_id user_id users)
      || is_some (find_user_by_username user.username users)
      || is_some (find_user_by_email user.email users)
    then (err duplicate_auth_user, users)
    else (ok (new_user user_id user), new_user user_id user ∷ users)
