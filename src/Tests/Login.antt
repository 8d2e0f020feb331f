-- ===== src/Tests/Login.antt =====
-- Requests with credentials.
use ot_sec_file_transfer.Base.{
  ℕ, ◌≡◌, refl, arith, Bool, true, false, List, [], ◌∷◌, ◌++◌, some, Text, codes, same, lookup,
  is_empty, before_first, after_first, Result, ok, err, auth, Every,
}
use ot_sec_file_transfer.Common.Bytes.{IsByte}
use ot_sec_file_transfer.Common.Digest.{to_hex}
use ot_sec_file_transfer.Common.Base64.{
  group_digit, decode_groups, decode_group, take_digit, digit, group_bytes, base64_encode,
  base64_decode,
}
use ot_sec_file_transfer.Auth.Sessions.{Scope, user, admin, prefix, starts_with, IssuedToken, issue}
use ot_sec_file_transfer.Auth.Limiter.{check, succeeded}
use ot_sec_file_transfer.Auth.Authenticator.{
  Guard, Peer, credentials, iequals, drop_spaces, find_peer, issue_token, authenticate_password,
  authenticate_admin, authenticate_admin_password, authenticate_peer, basic_pair,
}
use ot_sec_file_transfer.Auth.Authenticator.Passwords.{
  IsFree, Outcome, authenticate_password-encode, authenticate_password_sound,
}
use ot_sec_file_transfer.Auth.Authenticator.Tokens.{
  bearer, IsPeer, answers, authenticate_peer-IsPeer, authenticate_user-issue_token,
}
use ot_sec_file_transfer.Tests.Sessions.{sessions_for_an_hour, sha256, limits}

-- A directory that knows everyone whose password is their name.
abbrev pub directory : Text → Text → Result Text
unfolding same
directory name password = elim (same name password) [ true ↦ ok name | false ↦ err auth ]

abbrev pub is_member : Text → Text → Bool
unfolding same
is_member name group = same name (codes "bob")

abbrev pub g : Guard
g = record { sessions = []; entries = [] }

abbrev pub source : Text
source = codes "10.0.0.1"

abbrev pub group : Text
group = codes "admins"

abbrev pub name : Text
name = codes "bob"

bob-IsFree : IsFree 58 name
bob-IsFree = ground arith

pair-IsByte : Every IsByte (name ++ (58 ∷ name))
pair-IsByte = ground arith

unfoldable pub header : Text
unfolding base64_encode
header = codes "Basic " ++ base64_encode (name ++ (58 ∷ name))

abbrev t : IssuedToken
unfolding to_hex
t = record { token = codes "ftu_" ++ to_hex (1 ∷ 255 ∷ []); expires_at = 3700 }

abbrev pub peers : List Peer
peers = record { name = codes "siteB"; token = codes "secret" } ∷ []

unfoldable pub logging_in : Unit {0}
unfolding header authenticate_password basic_pair credentials base64_encode base64_decode iequals
    drop_spaces before_first after_first check lookup same authenticate_admin
    authenticate_admin_password issue_token issue to_hex group_digit decode_groups decode_group
    take_digit digit group_bytes succeeded authenticate_peer starts_with find_peer
logging_in = tt

authenticate_password-encode_example : Outcome limits directory name name source 100 g (
    authenticate_password limits directory
      (codes "Basic " ++ base64_encode (name ++ (58 ∷ name)))
      source
      100
      g)
authenticate_password-encode_example =
    authenticate_password-encode limits directory name name source 100 g bob-IsFree pair-IsByte

authenticate_password_sound_example :
    (name : Text) × (password : Text) × (basic_pair header ≡ ok (name, password))
    × (check name source 100 g.entries ≡ ok tt)
    × (directory name password ≡ ok (codes "bob"))
    × ((authenticate_password limits directory header source 100 g).1
        ≡ record g { entries = succeeded name source g.entries })
unfolding logging_in
authenticate_password_sound_example =
    authenticate_password_sound limits directory header source 100 g (codes "bob") refl

authenticate_peer-IsPeer_example :
    (token : Text) × (digest : List ℕ) × (credentials (bearer (codes "secret")) (codes "Bearer")
      ≡ some token)
    × (is_empty token ≡ false)
    × (starts_with token (prefix user) ≡ false)
    × (starts_with token (prefix admin) ≡ false)
    × (sha256 token ≡ ok digest)
    × IsPeer (codes "siteB") digest peers
unfolding logging_in
authenticate_peer-IsPeer_example =
    authenticate_peer-IsPeer peers sha256 (bearer (codes "secret")) (codes "siteB") refl

authenticate_user-issue_token_example :
    Every
      (λ answer. answer ≡ ok name)
      (answers sessions_for_an_hour sha256 limits directory
        (bearer t.token)
        source
        (900 ∷ 1500 ∷ [])
        (issue_token sessions_for_an_hour sha256 (some (1 ∷ 255 ∷ [])) name Scope.user 100 g).1)
unfolding logging_in
authenticate_user-issue_token_example =
    authenticate_user-issue_token sessions_for_an_hour sha256 limits directory (some (1 ∷ 255 ∷ []))
      name source 100 (900 ∷ 1500 ∷ []) g t refl (ground arith)
