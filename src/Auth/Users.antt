-- ===== src/Auth/Users.antt =====
-- `normalize_username`, `validate_username`, `get_min_password_length`, `validate_password`,
-- `create_user` and `authenticate_user`. A role is one of the two, so that check of `create_user` is void.
use monitoring_maxval.Base.{
  ℕ, ◌+◌, Bool, true, ◌&&◌, ◌||◌, Option, none, some, List, [], ◌∷◌, ◌==◌, ltb, leb, all, length,
  if◌then◌else◌,
}
use monitoring_maxval.Base.Int.{clamp}
use monitoring_maxval.Base.Result.{Result, ok, err}
use monitoring_maxval.Base.Rows.{insert, update}
use monitoring_maxval.Base.Text.{String, strip, lower_codes, py_int, Text, same_text}
use monitoring_maxval.Model.{setting}
use monitoring_maxval.Auth.Database.{User, UserRole, AuthStore}

-- The messages of `ValueError`.
pub data UserError : Type 0 where
  bad_username : UserError
  bad_password : ℕ → UserError
  name_is_taken : UserError

unfoldable pub normalize_username : Text → Text
normalize_username username = lower_codes (strip username)

-- `[\w.@+-]`, on ASCII
abbrev is_username_code : ℕ → Bool
is_username_code c =
    (leb b'a' c && leb c b'z')
    || (leb b'A' c && leb c b'Z')
    || (leb b'0' c && leb c b'9')
    || (c == b'_')
    || (c == b'.')
    || (c == b'@')
    || (c == b'+')
    || (c == b'-')

unfoldable pub validate_username : Text → Result UserError Text
unfolding normalize_username
validate_username username =
    let normalized = normalize_username username in
    if leb 3 (length normalized) && leb (length normalized) 64 && all is_username_code normalized
    then ok normalized
    else err UserError.bad_username

unfoldable pub get_min_password_length : List (String × String) → ℕ
get_min_password_length settings = elim (setting "min_password_length" settings) [
  | none ↦ 8
  | some value ↦ elim (py_int value) [ none ↦ 8 | some n ↦ clamp 3 64 n ]
]

unfoldable pub validate_password : List (String × String) → Text → Result UserError (Unit {0})
validate_password settings password =
    let minimum = get_min_password_length settings in
    if ltb (length password) minimum || ltb 64 (length password)
    then err (UserError.bad_password minimum)
    else ok tt

unfoldable pub find_username : Text → List User → Option User
find_username username [] = none
find_username username (u ∷ us) =
    if same_text u.username username then some u else find_username username us

abbrev new_user : Text → Text → UserRole → AuthStore → User × AuthStore
new_user username hash role db =
    let user : User = record {
      id = db.next_user;
      username = username;
      password_hash = hash;
      role = role;
      active = true;
      last_login_at = none;
      last_login_ip = none;
    } in
    (user, record db { users = insert user db.users; next_user = db.next_user + 1 })

abbrev add_user :
    (Text → Text) → Text → Text → UserRole → AuthStore → Result UserError (User × AuthStore)
add_user hash_password username password role db = elim (find_username username db.users) [
  | some _ ↦ err UserError.name_is_taken
  | none ↦ ok (new_user username (hash_password password) role db)
]

unfoldable pub create_user :
    (Text → Text) → Text → Text → UserRole → AuthStore → Result UserError (User × AuthStore)
unfolding find_username
create_user hash_password username password role db = elim (validate_username username) [
  | err e ↦ err e
  | ok normalized ↦ elim (validate_password db.settings password) [
    | err e ↦ err e
    | ok _ ↦ add_user hash_password normalized password role db
  ]
]

unfoldable pub find_active : Text → List User → Option User
find_active username [] = none
find_active username (u ∷ us) =
    if same_text u.username username && u.active then some u else find_active username us

-- A hash that the library would write differently today is renewed.
abbrev rehash : (Text → Text) → (Text → Bool) → Text → User → AuthStore → Option User × AuthStore
rehash hash_password needs_rehash password user db =
    let renewed : User = record user { password_hash = hash_password password } in
    if needs_rehash user.password_hash
    then (
      some renewed,
      record db {
        users =
            update User.id user.id (λ u. record u { password_hash = hash_password password })
              db.users;
      },
    )
    else (some user, db)

unfoldable pub authenticate_user :
    (Text → Text)
    → (Text → Text → Bool)
    → (Text → Bool)
    → Text
    → Text
    → AuthStore
    → Option User × AuthStore
unfolding find_active normalize_username
authenticate_user hash_password verify_password needs_rehash username password db =
    elim (find_active (normalize_username username) db.users) [
      | none ↦ (none, db)
      | some user ↦
          if verify_password user.password_hash password
          then rehash hash_password needs_rehash password user db
          else (none, db)
    ]
