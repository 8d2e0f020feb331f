-- ===== src/Auth/Sessions/Bounds.antt =====
-- What every sequence of calls keeps: a bound on a user's sessions.
use ot_sec_file_transfer.Base.{
  ℕ, ◌≤◌, ◌<◌, ◌≡◌, refl, true, List, [], ◌∷◌, Option, none, some, arith, if◌then◌else◌, Text, Dict,
  lookup, same_iff, ◌==◌, ◌++◌, Result, Result-cases, inl, inr,
}
use ot_sec_file_transfer.Common.Digest.{to_hex}
use ot_sec_file_transfer.Auth.Sessions.{
  prefix, Scope, user, admin, SessionOptions, Session, drop_expired, belongs_to, drop_oldest_of,
  new_session, issue, verify, use_session, revoke, revoke_user, list,
}
use ot_sec_file_transfer.Auth.Sessions.Limits.{
  count_of, count_of-erase-le, count_of-put-le, count_of-put_same, count_of-drop_expired-le,
  count_of-revoke_user-le, count_of-drop_oldest_of, count_of-drop_oldest_of-le,
}

-- The calls that change the map, with the time they are made at.
pub data Call : Type 0 where
  issue_call : Option (List ℕ) → Text → Scope → ℕ → Call
  verify_call : Text → Scope → ℕ → Call
  revoke_call : Text → Call
  revoke_user_call : Text → Call
  list_call : ℕ → Call

module _ (o : SessionOptions) (sha256 : Text → Result (List ℕ)) where
  unfoldable pub step : Call → Dict Session → Dict Session
  step (issue_call random name scope now) m = (issue o sha256 random name scope now m).1
  step (verify_call token scope now) m = (verify o sha256 token scope now m).1
  step (revoke_call token) m = revoke o sha256 token m
  step (revoke_user_call name) m = (revoke_user name m).1
  step (list_call now) m = (list o now m).1

  unfoldable pub run : List Call → Dict Session → Dict Session
  run [] m = m
  run (c ∷ cs) m = run cs (step c m)

  -- No user has more than `bound` sessions of a scope.
  abbrev IsWithin : ℕ → Dict Session → Type 0
  IsWithin bound m = (name : Text) (scope : Scope) → count_of name scope m ≤ bound

  -- The user and the scope of a new session have room for it.
  new_session_room :
      (bound : ℕ) (name : Text) (scope : Scope) (now : ℕ) (m : Dict Session) (other : Text)
      (place : Scope)
      → o.max_per_user ≤ bound
      → 1 ≤ bound
      → count_of other place m ≤ bound
      → belongs_to other place (new_session o sha256 name scope now) ≡ true
      → count_of other place (drop_oldest_of o name scope (drop_expired o now m)) < bound
  new_session_room bound name user now m other user h1 h2 h b = ground (
    arith,
    same_iff name other,
    count_of-drop_oldest_of name user o bound (drop_expired o now m),
    count_of-drop_expired-le name user o now m,
  )
  new_session_room bound name admin now m other admin h1 h2 h b = ground (
    arith,
    same_iff name other,
    count_of-drop_oldest_of name admin o bound (drop_expired o now m),
    count_of-drop_expired-le name admin o now m,
  )
  new_session_room bound name user now m other admin h1 h2 h b = ground arith
  new_session_room bound name admin now m other user h1 h2 h b = ground arith

  issue-IsWithin :
      (bound : ℕ) (random : Option (List ℕ)) (name : Text) (scope : Scope) (now : ℕ)
      (m : Dict Session)
      → o.max_per_user ≤ bound
      → 1 ≤ bound
      → IsWithin bound m
      → IsWithin bound (issue o sha256 random name scope now m).1
  unfolding issue
  issue-IsWithin bound none name scope now m h1 h2 h other place = h other place
  issue-IsWithin bound (some random) name scope now m h1 h2 h other place =
      elim (Result-cases (sha256 (prefix scope ++ to_hex random))) [
        | inr (digest, e) ↦
            let live = drop_expired o now m in
            let fewer = drop_oldest_of o name scope live in
            ground (
              arith,
              h other place,
              count_of-drop_expired-le other place o now m,
              count_of-drop_oldest_of-le other place o name scope live,
              count_of-put-le other place digest (new_session o sha256 name scope now) fewer,
              new_session_room bound name scope now m other place h1 h2 (h other place),
            )
        | inl e ↦ ground (arith, h other place)
      ]

  use_session-count :
      (digest : Text) (scope : Scope) (now : ℕ) (found : Option Session) (m : Dict Session)
      (other : Text) (place : Scope)
      → lookup digest m ≡ found
      → count_of other place (use_session o sha256 digest scope now found m).1
        ≤ count_of other place m
  unfolding use_session
  use_session-count digest scope now none m other place h = ground arith
  use_session-count digest scope now (some s) m other place h = ground (
    arith,
    count_of-erase-le other place digest m,
    count_of-put_same other place digest s (record s { last_used = now }) m h refl,
  )

  verify-IsWithin :
      (bound : ℕ) (token : Text) (scope : Scope) (now : ℕ) (m : Dict Session)
      → IsWithin bound m
      → IsWithin bound (verify o sha256 token scope now m).1
  unfolding verify
  verify-IsWithin bound token scope now m h other place = elim (Result-cases (sha256 token)) [
    | inr (digest, e) ↦ ground (
      arith,
      h other place,
      use_session-count digest scope now (lookup digest m) m other place refl,
    )
    | inl e ↦ ground (arith, h other place)
  ]

  step-IsWithin :
      (bound : ℕ) (c : Call) (m : Dict Session)
      → o.max_per_user ≤ bound
      → 1 ≤ bound
      → IsWithin bound m
      → IsWithin bound (step c m)
  unfolding step revoke list
  step-IsWithin bound (issue_call random name scope now) m h1 h2 h other place =
      issue-IsWithin bound random name scope now m h1 h2 h other place
  step-IsWithin bound (verify_call token scope now) m h1 h2 h other place =
      verify-IsWithin bound token scope now m h other place
  step-IsWithin bound (revoke_call token) m h1 h2 h other place =
      elim (Result-cases (sha256 token)) [
        | inr (digest, e) ↦ ground (arith, h other place, count_of-erase-le other place digest m)
        | inl e ↦ ground (arith, h other place)
      ]
  step-IsWithin bound (revoke_user_call name) m h1 h2 h other place =
      omega (arith, h other place, count_of-revoke_user-le other place name m)
  step-IsWithin bound (list_call now) m h1 h2 h other place =
      omega (arith, h other place, count_of-drop_expired-le other place o now m)

  run_from-IsWithin :
      (bound : ℕ) (cs : List Call) (m : Dict Session)
      → o.max_per_user ≤ bound
      → 1 ≤ bound
      → IsWithin bound m
      → IsWithin bound (run cs m)
  unfolding run
  run_from-IsWithin bound [] m h1 h2 h = h
  run_from-IsWithin bound (c ∷ cs) m h1 h2 h =
      run_from-IsWithin bound cs (step c m) h1 h2 (step-IsWithin bound c m h1 h2 h)

  -- After any sequence of calls that starts without a session, a user has at most `max_per_user`
  -- sessions of a scope, and at most one if `max_per_user` is 0.
  pub count_of-run :
      (cs : List Call) (name : Text) (scope : Scope)
      → count_of name scope (run cs []) ≤ (if o.max_per_user == 0 then 1 else o.max_per_user)
  count_of-run cs name scope =
      run_from-IsWithin (if o.max_per_user == 0 then 1 else o.max_per_user) cs [] (ground arith)
        (ground arith) (λ other place. unfold count_of in omega arith) name scope
