-- ===== src/Auth/Sessions/Tokens.antt =====
-- Which tokens are accepted.
use ot_sec_file_transfer.Base.{
  ℕ, ◌+◌, ◌<◌, ◌≡◌, ◌↔◌, refl, true, List, [], ◌∷◌, ◌++◌, Option, none, some, arith, Text, Dict,
  lookup, same_iff, lookup-put, lookup-erase, Result, ok, err, auth, Result-cases, inl, inr,
}
use ot_sec_file_transfer.Common.Digest.{to_hex}
use ot_sec_file_transfer.Auth.Sessions.{
  Scope, user, admin, pick, prefix, starts_with, SessionOptions, Session, IssuedToken, expired,
  issue, verify, revoke, new_session, drop_expired, drop_oldest_of,
}

starts_with-append : (start rest : Text) → starts_with (start ++ rest) start ≡ true
unfolding starts_with
starts_with-append [] rest = refl
starts_with-append (c ∷ start) rest = ground (arith, starts_with-append start rest)

abbrev pub other_scope : Scope → Scope
other_scope user = admin
other_scope admin = user

module _ (o : SessionOptions) (sha256 : Text → Result (List ℕ)) where
  -- A session is live for a scope and a time.
  pub record IsLive (s : Session) (scope : Scope) (now : ℕ) : Type 0 where
    pub scope_is : s.scope ≡ scope
    pub lasts : now < s.expires_at
    pub used : now < s.last_used + pick scope o.admin_idle o.idle

  -- `verify` accepts a token exactly if it has the prefix of its scope and its digest names a live
  -- session of that scope, and then gives the session's user.
  pub verify_iff :
      (token : Text) (scope : Scope) (now : ℕ) (m : Dict Session) (name : Text)
      → ((verify o sha256 token scope now m).0 ≡ ok name) ↔ (
          (starts_with token (prefix scope) ≡ true)
          × ((digest : List ℕ) × (s : Session) × (sha256 token ≡ ok digest)
              × (lookup digest m ≡ some s)
              × IsLive s scope now
              × (s.user ≡ name)))
  unfolding verify expired
  verify_iff token scope now m name = (λ h. ground arith, λ h. ground arith)

  -- A token that was issued is accepted for its scope until it expires or has been idle too long.
  pub verify-issue :
      (random : Option (List ℕ)) (name : Text) (scope : Scope) (now later : ℕ) (m : Dict Session)
      (t : IssuedToken)
      → (issue o sha256 random name scope now m).0 ≡ ok t
      → later < t.expires_at
      → later < now + pick scope o.admin_idle o.idle
      → (verify o sha256 t.token scope later (issue o sha256 random name scope now m).1).0 ≡ ok name
  unfolding issue verify expired
  verify-issue none name scope now later m t h lasts used = cc
  verify-issue (some random) name user now later m t h lasts used =
      elim (Result-cases (sha256 (prefix user ++ to_hex random))) [
        | inr (digest, e) ↦ ground (
          arith,
          lookup-put digest digest (new_session o sha256 name user now)
              (drop_oldest_of o name user (drop_expired o now m)),
          same_iff digest digest,
          starts_with-append (prefix user) (to_hex random),
        )
        | inl e ↦ ground arith
      ]
  verify-issue (some random) name admin now later m t h lasts used =
      elim (Result-cases (sha256 (prefix admin ++ to_hex random))) [
        | inr (digest, e) ↦ ground (
          arith,
          lookup-put digest digest (new_session o sha256 name admin now)
              (drop_oldest_of o name admin (drop_expired o now m)),
          same_iff digest digest,
          starts_with-append (prefix admin) (to_hex random),
        )
        | inl e ↦ ground arith
      ]

  -- The session that an issued token names.
  pub issue-held :
      (random : Option (List ℕ)) (name : Text) (now : ℕ) (m : Dict Session) (t : IssuedToken)
      → (issue o sha256 random name user now m).0 ≡ ok t
      → (digest : List ℕ) × (starts_with t.token (prefix user) ≡ true)
        × (sha256 t.token ≡ ok digest)
        × (t.expires_at ≡ now + o.ttl)
        × (lookup digest (issue o sha256 random name user now m).1
            ≡ some (new_session o sha256 name user now))
  unfolding issue
  issue-held none name now m t h = cc
  issue-held (some random) name now m t h =
      elim (Result-cases (sha256 (prefix user ++ to_hex random))) [
        | inr (digest, e) ↦
            let kept = drop_oldest_of o name user (drop_expired o now m) in
            let put = lookup-put digest digest (new_session o sha256 name user now) kept in
            let start = starts_with-append (prefix user) (to_hex random) in
            let same = same_iff digest digest in
            (digest, ground arith, ground arith, ground arith, ground arith)
        | inl e ↦ ground arith
      ]

  -- A use of a live session gives its user, and is remembered as its last use.
  pub verify-held :
      (token digest : Text) (now : ℕ) (m : Dict Session) (s : Session)
      → starts_with token (prefix user) ≡ true
      → sha256 token ≡ ok digest
      → lookup digest m ≡ some s
      → s.scope ≡ user
      → now < s.expires_at
      → now < s.last_used + o.idle
      → ((verify o sha256 token user now m).0 ≡ ok s.user)
        × (lookup digest (verify o sha256 token user now m).1 ≡ some (record s { last_used = now }))
  unfolding verify expired
  verify-held token digest now m s start e found scope lasts used =
      let put = lookup-put digest digest (record s { last_used = now }) m in
      let same = same_iff digest digest in (ground arith, ground arith)

  -- No token is accepted for the scope that it was not issued for.
  pub verify-issue_other :
      (random : Option (List ℕ)) (name : Text) (scope : Scope) (now later : ℕ) (m m' : Dict Session)
      (t : IssuedToken)
      → (issue o sha256 random name scope now m).0 ≡ ok t
      → (verify o sha256 t.token (other_scope scope) later m').0 ≡ err auth
  unfolding issue verify starts_with
  verify-issue_other (some random) name user now later m m' t h = ground arith
  verify-issue_other (some random) name admin now later m m' t h = ground arith
  verify-issue_other none name scope now later m m' t h = cc

  -- A token that was revoked is not accepted any more.
  pub verify-revoke :
      (token : Text) (digest : List ℕ) (scope : Scope) (now : ℕ) (m : Dict Session)
      → sha256 token ≡ ok digest
      → (verify o sha256 token scope now (revoke o sha256 token m)).0 ≡ err auth
  unfolding verify revoke
  verify-revoke token digest scope now m h =
      ground (arith, lookup-erase digest digest m, same_iff digest digest)
