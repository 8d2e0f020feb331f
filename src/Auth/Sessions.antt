-- ===== src/Auth/Sessions.antt =====
-- auth/session_store.hpp and session_store.cpp. `Sha256::of`, the bytes of `RAND_bytes` and the time
-- of the clock are arguments; `mutex_` makes each method one step. The map goes by digest.
pub mod Tokens
pub mod Limits
pub mod Bounds
use ot_sec_file_transfer.Base.{
  ℕ, suc, ◌+◌, ◌<◌, Bool, true, false, not, ◌&&◌, ◌||◌, List, [], ◌∷◌, ◌++◌, Option, none, some,
  if◌then◌else◌, Text, Dict, codes, lookup, put, erase, same, ltb, leb, ◌==◌, length, Result, ok,
  err, auth, internal, ◌>>=◌,
}
use ot_sec_file_transfer.Base.Sort.{sort}
use ot_sec_file_transfer.Common.Digest.{to_hex}
use ot_sec_file_transfer.Transaction.Service.Reading.{is_expired}

pub data Scope : Type 0 where
  user admin : Scope

abbrev pub same_scope : Scope → Scope → Bool
same_scope user user = true
same_scope admin admin = true
same_scope _ _ = false

abbrev pub pick {ℓ} : {A : Type ℓ} → Scope → A → A → A
pick admin a u = a
pick user a u = u

pub record IssuedToken : Type 0 where
  pub token : Text
  pub expires_at : ℕ

pub record SessionOptions : Type 0 where
  pub ttl : ℕ
  pub idle : ℕ
  pub max_per_user : ℕ
  pub admin_ttl : ℕ
  pub admin_idle : ℕ

pub record Session : Type 0 where
  pub user : Text
  pub scope : Scope
  pub created : ℕ
  pub last_used : ℕ
  pub expires_at : ℕ

abbrev pub prefix : Scope → Text
prefix admin = codes "fta_"
prefix user = codes "ftu_"

unfoldable pub starts_with : Text → Text → Bool
starts_with text [] = true
starts_with [] (c ∷ start) = false
starts_with (x ∷ text) (c ∷ start) = x == c && starts_with text start

module _ (o : SessionOptions) where
  unfoldable pub expired : Session → ℕ → Bool
  unfolding is_expired
  expired s now =
      is_expired s.expires_at now || is_expired (s.last_used + pick s.scope o.admin_idle o.idle) now

  unfoldable pub drop_expired : ℕ → Dict Session → Dict Session
  drop_expired now [] = []
  drop_expired now ((k, s) ∷ m) =
      if expired s now then drop_expired now m else (k, s) ∷ drop_expired now m

abbrev pub belongs_to : Text → Scope → Session → Bool
belongs_to name scope s = same s.user name && same_scope s.scope scope

abbrev pub older : ℕ × Session → Option (Text × Session) → Bool
older (n, s) none = true
older (n, s) (some (k, t)) = ltb s.created t.created

-- The loop of `drop_oldest_of`: the number of sessions seen, and the oldest of them.
unfoldable pub scan_oldest :
    Text → Scope → ℕ → Option (Text × Session) → Dict Session → ℕ × Option (Text × Session)
scan_oldest name scope count oldest [] = (count, oldest)
scan_oldest name scope count oldest ((k, s) ∷ m) =
    scan_oldest name scope (if belongs_to name scope s then count + 1 else count)
      (if belongs_to name scope s && older (count, s) oldest then some (k, s) else oldest) m

abbrev pub erase_found : Option (Text × Session) → Dict Session → Dict Session
erase_found none m = m
erase_found (some (k, s)) m = erase k m

unfoldable pub drop_oldest_of : SessionOptions → Text → Scope → Dict Session → Dict Session
unfolding scan_oldest
drop_oldest_of o name scope m =
    let found = scan_oldest name scope 0 none m in
    if leb o.max_per_user found.0 then erase_found found.1 m else m

module _ (o : SessionOptions) (sha256 : Text → Result (List ℕ)) where
  abbrev pub new_session : Text → Scope → ℕ → Session
  new_session name scope now = record {
    user = name;
    scope = scope;
    created = now;
    last_used = now;
    expires_at = now + pick scope o.admin_ttl o.ttl;
  }

  -- `issue`, from the random bytes on; `none` is a failure of `RAND_bytes`.
  unfoldable pub issue :
      Option (List ℕ) → Text → Scope → ℕ → Dict Session → Result IssuedToken × Dict Session
  issue none name scope now m = (err internal, m)
  issue (some random) name scope now m =
      let token = prefix scope ++ to_hex random in
      elim (sha256 token) [
        | err e ↦ (err e, m)
        | ok digest ↦ (
          ok (record { token = token; expires_at = now + pick scope o.admin_ttl o.ttl }),
          put digest (new_session name scope now)
              (drop_oldest_of o name scope (drop_expired o now m)),
        )
      ]

  -- The part of `verify` after the lookup.
  unfoldable pub use_session :
      Text → Scope → ℕ → Option Session → Dict Session → Result Text × Dict Session
  use_session digest scope now none m = (err auth, m)
  use_session digest scope now (some s) m =
      if not (same_scope s.scope scope)
      then (err auth, m)
      else (if expired o s now
          then (err auth, erase digest m)
          else (ok s.user, put digest (record s { last_used = now }) m))

  unfoldable pub verify : Text → Scope → ℕ → Dict Session → Result Text × Dict Session
  unfolding use_session
  verify token scope now m =
      if not (starts_with token (prefix scope)) then (err auth, m) else (elim (sha256 token) [
        | err e ↦ (err e, m)
        | ok digest ↦ use_session digest scope now (lookup digest m) m
      ])

  unfoldable pub revoke : Text → Dict Session → Dict Session
  revoke token m = elim (sha256 token) [ err e ↦ m | ok digest ↦ erase digest m ]

-- `revoke_user`: the sessions that ended, and the rest.
unfoldable pub revoke_user : Text → Dict Session → ℕ × Dict Session
revoke_user name [] = (0, [])
revoke_user name ((k, s) ∷ m) =
    let rest = revoke_user name m in
    if same s.user name then (rest.0 + 1, rest.1) else (rest.0, (k, s) ∷ rest.1)

pub record SessionInfo : Type 0 where
  pub user : Text
  pub scope : Scope
  pub created : ℕ
  pub last_used : ℕ
  pub expires_at : ℕ

unfoldable pub infos : Dict Session → List SessionInfo
infos [] = []
infos ((k, s) ∷ m) =
    record {
      user = s.user;
      scope = s.scope;
      created = s.created;
      last_used = s.last_used;
      expires_at = s.expires_at;
    }
    ∷ infos m

-- `list`: the live sessions, oldest login first, and the map without the expired ones.
unfoldable pub list : SessionOptions → ℕ → Dict Session → List SessionInfo × Dict Session
unfolding infos
list o now m =
    let live = drop_expired o now m in (sort (λ a b. ltb a.created b.created) (infos live), live)
