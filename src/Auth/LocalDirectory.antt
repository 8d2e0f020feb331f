-- ===== src/Auth/LocalDirectory.antt =====
-- auth/local_directory.hpp and local_directory.cpp: the users and groups of the configuration. The
-- check of an unknown user against a dummy hash only takes time, and is left out. `mu_` makes each
-- access to the cache one step; PBKDF2 and SHA-256 are parameters.
pub mod Cache
use ot_sec_file_transfer.Base.{
  ℕ, Bool, true, false, not, ◌||◌, List, [], ◌∷◌, ◌++◌, Option, none, some, if◌then◌else◌, Text,
  Dict, lookup, put, same, Result, ok, err, auth, validation, ◌>>=◌, ◌>>◌,
}
use ot_sec_file_transfer.Auth.Passwords
use ot_sec_file_transfer.Auth.Passwords.{PasswordHash, verify}

-- `[[user]]` and `[[group]]` of the configuration.
pub record UserEntry : Type 0 where
  pub name : Text
  pub password_hash : Text

pub record GroupEntry : Type 0 where
  pub name : Text
  pub members : List Text

pub record Directory : Type 0 where
  pub users : Dict PasswordHash
  pub groups : Dict (List Text)

-- `std::map::emplace`
unfoldable pub emplace : {V : Type 0} → Text → V → Dict V → Dict V
emplace key v m = elim (lookup key m) [ none ↦ put key v m | some _ ↦ m ]

unfoldable pub parse_users : List UserEntry → Dict PasswordHash → Result (Dict PasswordHash)
parse_users [] users = ok users
parse_users (u ∷ entries) users = elim (Passwords.parse u.password_hash) [
  | err e ↦ err validation
  | ok hash ↦ parse_users entries (emplace u.name hash users)
]

unfoldable pub add_groups : List GroupEntry → Dict (List Text) → Dict (List Text)
add_groups [] groups = groups
add_groups (g ∷ entries) groups = add_groups entries (emplace g.name g.members groups)

unfoldable pub create : List UserEntry → List GroupEntry → Result Directory
create users groups = do
  parsed ← parse_users users []
  ok (record { users = parsed; groups = add_groups groups [] })

unfoldable pub has_user : Directory → Text → Bool
has_user d name = elim (lookup name d.users) [ none ↦ false | some _ ↦ true ]

unfoldable pub has_group : Directory → Text → Bool
has_group d name = elim (lookup name d.groups) [ none ↦ false | some _ ↦ true ]

unfoldable pub contains : Text → List Text → Bool
contains name [] = false
contains name (n ∷ names) = same n name || contains name names

unfoldable pub is_member : Directory → Text → Text → Bool
is_member d user group = elim (lookup group d.groups) [
  | none ↦ false
  | some members ↦ contains user members
]

unfoldable pub fingerprint : (Text → Result (List ℕ)) → PasswordHash → Text → Result (List ℕ)
fingerprint sha256 hash password = sha256 (hash.salt ++ password)

-- The first look into the cache.
unfoldable pub is_cached : Text → Result (List ℕ) → Dict (List ℕ) → Bool
is_cached user (err e) verified = false
is_cached user (ok print) verified = elim (lookup user verified) [
  | none ↦ false
  | some known ↦ same known print
]

unfoldable pub remember : Text → Result (List ℕ) → Dict (List ℕ) → Dict (List ℕ)
remember user (err e) verified = verified
remember user (ok print) verified = put user print verified

module _ (pbkdf2 : Text → List ℕ → ℕ → ℕ → Result (List ℕ)) (sha256 : Text → Result (List ℕ)) where
  unfoldable pub check_password : Text → PasswordHash → Text → Dict (List ℕ) → Bool × Dict (List ℕ)
  unfolding is_cached remember
  check_password user hash password verified =
      let print = fingerprint sha256 hash password in
      if is_cached user print verified
      then (true, verified)
      else (if verify pbkdf2 hash password
          then (true, remember user print verified)
          else (false, verified))

  unfoldable pub verify_user : Directory → Text → Text → Dict (List ℕ) → Result Text × Dict (List ℕ)
  verify_user d user password verified = elim (lookup user d.users) [
    | none ↦ (err auth, verified)
    | some hash ↦
        let checked = check_password user hash password verified in
        (if checked.0 then ok user else err auth, checked.1)
  ]

  -- The answers to a sequence of logins.
  unfoldable pub verify_all : Directory → List (Text × Text) → Dict (List ℕ) → List (Result Text)
  verify_all d [] verified = []
  verify_all d ((user, password) ∷ logins) verified =
      let answer = verify_user d user password verified in answer.0 ∷ verify_all d logins answer.1
