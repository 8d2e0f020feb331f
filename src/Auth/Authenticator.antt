-- ===== src/Auth/Authenticator.antt =====
-- auth/authenticator.hpp and authenticator.cpp. The user directory behind `IUserDirectory` is a
-- parameter, as are the digest and the random bytes; the two members that are mutated, the session
-- map and the limiter's entries, are the state.
pub mod Passwords
pub mod Tokens
use ot_sec_file_transfer.Base.{
  ℕ, Bool, true, false, not, ◌&&◌, ◌||◌, List, [], ◌∷◌, Option, none, some, if◌then◌else◌, Text,
  Dict, codes, same, ◌==◌, is_empty, before_first, after_first, ErrCode, Result, ok, err, auth,
  forbidden, is_ok,
}
use ot_sec_file_transfer.Common.Base64.{base64_decode}
use ot_sec_file_transfer.Auth.Sessions.{
  Scope, user, admin, Session, SessionOptions, IssuedToken, prefix, starts_with, verify, issue,
  revoke,
}
use ot_sec_file_transfer.Auth.Limiter.{LimiterOptions, Entry, lower_char, check, failed, succeeded}

-- A peer that may call: its name, and the digest of its `accept_token`.
pub record Peer : Type 0 where
  pub name : Text
  pub token : List ℕ

pub record Guard : Type 0 where
  pub sessions : Dict Session
  pub entries : Dict Entry

unfoldable pub iequals : Text → Text → Bool
iequals [] [] = true
iequals (x ∷ a) (y ∷ b) = lower_char x == lower_char y && iequals a b
iequals _ _ = false

-- `substr(find_first_not_of(' '))`
unfoldable pub drop_spaces : Text → Text
drop_spaces [] = []
drop_spaces (c ∷ text) = let rest = drop_spaces text in if c == 32 then rest else c ∷ text

abbrev pub trimmed : Option Text → Text
trimmed none = []
trimmed (some rest) = drop_spaces rest

abbrev pub has : Option Text → Bool
has none = false
has (some text) = true

unfoldable pub credentials : Text → Text → Option Text
credentials header scheme =
    let rest = after_first 32 header in
    if not (has rest) || not (iequals (before_first 32 header) scheme)
    then none
    else some (trimmed rest)

-- The loop over the peers in `authenticate_peer`, without an early exit.
unfoldable pub find_peer : List ℕ → Option Peer → List Peer → Option Peer
find_peer digest found [] = found
find_peer digest found (p ∷ peers) =
    find_peer digest (if same p.token digest then some p else found) peers

abbrev pub is_auth : ErrCode → Bool
is_auth auth = true
is_auth _ = false

-- The parts of the header "Basic base64(user:password)".
unfoldable pub pair_of : Result (List ℕ) → Result (Text × Text)
pair_of (err e) = err auth
pair_of (ok pair) = elim (after_first 58 pair) [
  | none ↦ err auth
  | some password ↦ ok (before_first 58 pair, password)
]

unfoldable pub basic_pair : Text → Result (Text × Text)
unfolding credentials pair_of
basic_pair authorization =
    if is_empty authorization then err auth else (elim (credentials authorization (codes "Basic")) [
      | none ↦ err auth
      | some encoded ↦ pair_of (base64_decode encoded)
    ])

module _ (o : LimiterOptions) (directory : Text → Text → Result Text) where
  -- What the limiter learns from the directory's answer.
  abbrev pub counted : Text → Text → ℕ → Result Text → Dict Entry → Dict Entry
  counted name source now (ok found) m = succeeded name source m
  counted name source now (err e) m = if is_auth e then failed o name source now m else m

  abbrev pub ask : Text → Text → Text → ℕ → Guard → Result Text × Guard
  ask name password source now g = elim (check name source now g.entries) [
    | err e ↦ (err e, g)
    | ok _ ↦
        let answer = directory name password in
        (answer, record g { entries = counted name source now answer g.entries })
  ]

  unfoldable pub authenticate_password : Text → Text → ℕ → Guard → Result Text × Guard
  unfolding basic_pair
  authenticate_password authorization source now g = elim (basic_pair authorization) [
    | err e ↦ (err e, g)
    | ok (name, password) ↦ ask name password source now g
  ]

module _ (so : SessionOptions) (sha256 : Text → Result (List ℕ)) where
  abbrev pub verify_session : Text → Scope → ℕ → Guard → Result Text × Guard
  verify_session token scope now g =
      let found = verify so sha256 token scope now g.sessions in
      (found.0, record g { sessions = found.1 })

  unfoldable pub issue_token :
      Option (List ℕ) → Text → Scope → ℕ → Guard → Result IssuedToken × Guard
  issue_token random name scope now g =
      let issued = issue so sha256 random name scope now g.sessions in
      (issued.0, record g { sessions = issued.1 })

  unfoldable pub revoke_token : Text → Guard → Guard
  unfolding credentials
  revoke_token authorization g = elim (credentials authorization (codes "Bearer")) [
    | none ↦ g
    | some token ↦ record g { sessions = revoke so sha256 token g.sessions }
  ]

  module _ (o : LimiterOptions) (directory : Text → Text → Result Text) where
    unfoldable pub authenticate_user : Text → Text → ℕ → Guard → Result Text × Guard
    authenticate_user authorization source now g =
        elim (credentials authorization (codes "Bearer")) [
          | none ↦ authenticate_password o directory authorization source now g
          | some token ↦ verify_session token user now g
        ]

    module _ (is_member : Text → Text → Bool) (admin_group : Text) where
      abbrev pub require_admin : Result Text × Guard → Result Text × Guard
      require_admin (err e, g) = (err e, g)
      require_admin (ok name, g) =
          if is_empty admin_group || not (is_member name admin_group)
          then (err forbidden, g)
          else (ok name, g)

      unfoldable pub authenticate_admin_password : Text → Text → ℕ → Guard → Result Text × Guard
      authenticate_admin_password authorization source now g =
          require_admin (authenticate_password o directory authorization source now g)

      unfoldable pub authenticate_admin : Text → Text → ℕ → Guard → Result Text × Guard
      authenticate_admin authorization source now g =
          elim (credentials authorization (codes "Bearer")) [
            | none ↦ authenticate_admin_password authorization source now g
            | some token ↦ require_admin (verify_session token admin now g)
          ]

abbrev pub name_of : Option Peer → Result Text
name_of none = err auth
name_of (some p) = ok p.name

module _ (peers : List Peer) (sha256 : Text → Result (List ℕ)) where
  abbrev pub peer_of_token : Text → Result Text
  peer_of_token token =
      if is_empty token || starts_with token (prefix user) || starts_with token (prefix admin)
      then err auth
      else (elim (sha256 token) [
        | err e ↦ err e
        | ok digest ↦ name_of (find_peer digest none peers)
      ])

  unfoldable pub authenticate_peer : Text → Result Text
  unfolding find_peer
  authenticate_peer authorization =
      if is_empty authorization
      then err auth
      else (elim (credentials authorization (codes "Bearer")) [
        | none ↦ err auth
        | some token ↦ peer_of_token token
      ])
