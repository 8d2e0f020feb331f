-- ===== src/Auth/Authenticator/Tokens.antt =====
-- Which Bearer tokens are accepted, from users and from peers.
use mathlib.Core.Path.{subst}
use ot_sec_file_transfer.Base.{
  ℕ, ◌+◌, ◌<◌, ◌≡◌, ◌⊎◌, inl, inr, refl, arith, true, false, lookup, Every, List, [], ◌∷◌, ◌++◌,
  Option, none, some, if◌then◌else◌, Text, codes, same, same_iff, is_empty, before_first,
  after_first, Result, ok, err, auth, Result-cases, Option-cases,
}
use ot_sec_file_transfer.Auth.Sessions.{
  Scope, user, admin, SessionOptions, Session, IssuedToken, new_session, issue, prefix, starts_with,
}
use ot_sec_file_transfer.Auth.Sessions.Tokens.{issue-held, verify-held, verify-revoke}
use ot_sec_file_transfer.Auth.Limiter.{LimiterOptions}
use ot_sec_file_transfer.Auth.Authenticator.{
  Guard, Peer, credentials, drop_spaces, iequals, find_peer, issue_token, revoke_token,
  authenticate_user, authenticate_peer, name_of, peer_of_token,
}

abbrev pub bearer : Text → Text
bearer token = codes "Bearer " ++ token

credentials-bearer :
    (text : Text) → credentials (bearer text) (codes "Bearer") ≡ some (drop_spaces text)
unfolding credentials after_first before_first iequals
credentials-bearer text = refl

-- One of the peers has a name and a digest.
abbrev pub IsPeer : Text → List ℕ → List Peer → Type 0
IsPeer name digest [] = ⊥
IsPeer name digest (p ∷ peers) = ((p.name ≡ name) × (p.token ≡ digest)) ⊎ IsPeer name digest peers

find_peer-IsPeer :
    (digest : List ℕ) (found : Option Peer) (peers : List Peer) (name : Text)
    → name_of (find_peer digest found peers) ≡ ok name
    → (name_of found ≡ ok name) ⊎ IsPeer name digest peers
unfolding find_peer
find_peer-IsPeer digest found [] name h = inl h
find_peer-IsPeer digest found (p ∷ peers) name h = ground (
  arith,
  same_iff p.token digest,
  find_peer-IsPeer digest (if same p.token digest then some p else found) peers name h,
)

module _ (peers : List Peer) (sha256 : Text → Result (List ℕ)) where
  peer_of_token-IsPeer :
      (token name : Text)
      → peer_of_token peers sha256 token ≡ ok name
      → (digest : List ℕ) × (is_empty token ≡ false)
        × (starts_with token (prefix user) ≡ false)
        × (starts_with token (prefix admin) ≡ false)
        × (sha256 token ≡ ok digest)
        × IsPeer name digest peers
  peer_of_token-IsPeer token name h = elim (Result-cases (sha256 token)) [
    | inl e ↦ ground arith
    | inr (digest, e) ↦ ground (arith, find_peer-IsPeer digest none peers name)
  ]

  -- A peer is let in under a name only if its header holds a token, which is not a user's or an
  -- administrator's, and a peer of that name is configured with the token's digest.
  pub authenticate_peer-IsPeer :
      (header name : Text)
      → authenticate_peer peers sha256 header ≡ ok name
      → (token : Text) × (digest : List ℕ) × (credentials header (codes "Bearer") ≡ some token)
        × (is_empty token ≡ false)
        × (starts_with token (prefix user) ≡ false)
        × (starts_with token (prefix admin) ≡ false)
        × (sha256 token ≡ ok digest)
        × IsPeer name digest peers
  unfolding authenticate_peer
  authenticate_peer-IsPeer header name h =
      elim (Option-cases (credentials header (codes "Bearer"))) [
        | inl e ↦ ground arith
        | inr (token, e) ↦ ground (arith, peer_of_token-IsPeer token name)
      ]

module _ (so : SessionOptions) (sha256 : Text → Result (List ℕ)) where
  issue_token-credentials :
      (random : Option (List ℕ)) (name : Text) (scope : Scope) (now : ℕ) (g : Guard)
      (t : IssuedToken)
      → (issue_token so sha256 random name scope now g).0 ≡ ok t
      → credentials (bearer t.token) (codes "Bearer") ≡ some t.token
  unfolding issue_token issue drop_spaces
  issue_token-credentials none name scope now g t h = cc
  issue_token-credentials (some random) name user now g t h =
      ground (arith, credentials-bearer t.token)
  issue_token-credentials (some random) name admin now g t h =
      ground (arith, credentials-bearer t.token)

  -- Requests with one header at the times of a list: what each is answered, and the state after them.
  unfoldable pub answers :
      LimiterOptions
      → (Text → Text → Result Text)
      → Text
      → Text
      → List ℕ
      → Guard
      → List (Result Text)
  answers o directory header source [] g = []
  answers o directory header source (now ∷ times) g =
      let answer = authenticate_user so sha256 o directory header source now g in
      answer.0 ∷ answers o directory header source times answer.1

  -- Each time is before the expiry, and less than the idle time after the one before it.
  abbrev pub IsInUse : ℕ → ℕ → List ℕ → Type 0
  IsInUse expiry last [] = Unit {0}
  IsInUse expiry last (now ∷ times) =
      (now < expiry) × (now < last + so.idle) × IsInUse expiry now times

  authenticate_user-held :
      (o : LimiterOptions) (directory : Text → Text → Result Text) (token digest source : Text)
      (now : ℕ) (g : Guard) (s : Session)
      → credentials (bearer token) (codes "Bearer") ≡ some token
      → starts_with token (prefix user) ≡ true
      → sha256 token ≡ ok digest
      → lookup digest g.sessions ≡ some s
      → s.scope ≡ user
      → now < s.expires_at
      → now < s.last_used + so.idle
      → ((authenticate_user so sha256 o directory (bearer token) source now g).0 ≡ ok s.user)
        × (lookup digest
              (authenticate_user so sha256 o directory (bearer token) source now g).1.sessions
            ≡ some (record s { last_used = now }))
  unfolding authenticate_user
  authenticate_user-held o directory token digest source now g s c start e found scope lasts used =
      let held =
        verify-held so sha256 token digest now g.sessions s start e found scope lasts used in
      (ground (arith, c, held.0), ground (arith, c, held.1))

  answers-held :
      (o : LimiterOptions) (directory : Text → Text → Result Text) (token digest source : Text)
      (times : List ℕ) (g : Guard) (s : Session)
      → credentials (bearer token) (codes "Bearer") ≡ some token
      → starts_with token (prefix user) ≡ true
      → sha256 token ≡ ok digest
      → lookup digest g.sessions ≡ some s
      → s.scope ≡ user
      → IsInUse s.expires_at s.last_used times
      → Every (λ answer. answer ≡ ok s.user) (answers o directory (bearer token) source times g)
  unfolding answers
  answers-held o directory token digest source [] g s c start e found scope h = tt
  answers-held o directory token digest source (now ∷ times) g s c start e found scope h =
      let held =
        authenticate_user-held o directory token digest source now g s c start e found scope h.0
          h.1 in
      (
        held.0,
        answers-held o directory token digest source times
            (authenticate_user so sha256 o directory (bearer token) source now g).1
            (record s { last_used = now }) c start e held.1 scope h.2,
      )

  -- Requests with a token that was issued to a user, where no other call comes between the issue and
  -- them, are all of that user, whatever the directory and the limiter say, as long as each comes
  -- before the token expires and within the idle time after the request before it, or the issue.
  pub authenticate_user-issue_token :
      (o : LimiterOptions) (directory : Text → Text → Result Text) (random : Option (List ℕ))
      (name source : Text) (now : ℕ) (times : List ℕ) (g : Guard) (t : IssuedToken)
      → (issue_token so sha256 random name user now g).0 ≡ ok t
      → IsInUse t.expires_at now times
      → Every
          (λ answer. answer ≡ ok name)
          (answers o directory
            (bearer t.token)
            source
            times
            (issue_token so sha256 random name user now g).1)
  unfolding issue_token
  authenticate_user-issue_token o directory random name source now times g t h used =
      let (digest, start, e, expiry, found) = issue-held so sha256 random name now g.sessions t h in
      answers-held o directory t.token digest source times
        (issue_token so sha256 random name user now g).1 (new_session so sha256 name user now)
        (issue_token-credentials random name user now g t h) start e found refl
        (subst (λ expiry. IsInUse expiry now times) expiry used)

  -- A token that was issued to a user or an administrator is never accepted as a peer's.
  pub authenticate_peer-issue_token :
      (peers : List Peer) (random : Option (List ℕ)) (name : Text) (scope : Scope) (now : ℕ)
      (g : Guard) (t : IssuedToken)
      → (issue_token so sha256 random name scope now g).0 ≡ ok t
      → authenticate_peer peers sha256 (bearer t.token) ≡ err auth
  unfolding authenticate_peer issue_token issue starts_with
  authenticate_peer-issue_token peers none name scope now g t h = cc
  authenticate_peer-issue_token peers (some random) name user now g t h =
      ground (arith, issue_token-credentials (some random) name user now g t h)
  authenticate_peer-issue_token peers (some random) name admin now g t h =
      ground (arith, issue_token-credentials (some random) name admin now g t h)

  -- After a logout, the token of the header is refused.
  pub authenticate_user-revoke_token :
      (o : LimiterOptions) (directory : Text → Text → Result Text) (header token source : Text)
      (digest : List ℕ) (now : ℕ) (g : Guard)
      → credentials header (codes "Bearer") ≡ some token
      → sha256 token ≡ ok digest
      → (authenticate_user so sha256 o directory header source now
          (revoke_token so sha256 header g)).0
        ≡ err auth
  unfolding authenticate_user revoke_token
  authenticate_user-revoke_token o directory header token source digest now g h1 h2 =
      ground (arith, verify-revoke so sha256 token digest user now g.sessions h2)
