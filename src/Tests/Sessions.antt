-- ===== src/Tests/Sessions.antt =====
-- Sessions and the login limiter.
use ot_sec_file_transfer.Base.{
  ℕ, ◌≤◌, ◌≡◌, ◌↔◌, refl, arith, true, List, [], ◌∷◌, some, if◌then◌else◌, Text, Dict, codes,
  lookup, same, ◌==◌, Result, ok, err, throttled,
}
use ot_sec_file_transfer.Auth.Sessions.{Scope, SessionOptions, Session, prefix, starts_with, verify}
use ot_sec_file_transfer.Auth.Sessions.Tokens.{IsLive, verify_iff}
use ot_sec_file_transfer.Auth.Sessions.Limits.{count_of}
use ot_sec_file_transfer.Auth.Sessions.Bounds.{Call, issue_call, verify_call, run, count_of-run}
use ot_sec_file_transfer.Auth.Limiter.{LimiterOptions, Entry, pair_key, check, failed, lower}
use ot_sec_file_transfer.Auth.Limiter.Backoff.{
  Attempt, failure, success, last_of, check-failed, check-run,
}
use ot_sec_file_transfer.Auth.Limiter.Backoff

abbrev pub sessions_for_an_hour : SessionOptions
sessions_for_an_hour = record {
  ttl = 3600;
  idle = 900;
  max_per_user = 2;
  admin_ttl = 3600;
  admin_idle = 900;
}

-- Stands in for the digest in the examples.
abbrev pub sha256 : Text → Result (List ℕ)
sha256 text = ok text

abbrev pub limits : LimiterOptions
limits = record {
  free_per_pair = 5;
  free_per_source = 20;
  free_per_user = 50;
  base_delay = 30;
  max_delay = 900;
  max_keys = 10000;
}

abbrev calls : List Call
calls =
    issue_call (some (1 ∷ [])) (codes "alice") Scope.user 100
    ∷ issue_call (some (2 ∷ [])) (codes "alice") Scope.user 200
    ∷ issue_call (some (3 ∷ [])) (codes "alice") Scope.user 300
    ∷ verify_call (codes "ftu_03") Scope.user 310
    ∷ []

verify_iff_example :
    ((verify sessions_for_an_hour sha256
        (codes "ftu_03")
        Scope.user
        310
        (run sessions_for_an_hour sha256 calls [])).0
      ≡ ok (codes "alice"))
    ↔ ((starts_with (codes "ftu_03") (prefix Scope.user) ≡ true)
        × ((digest : List ℕ) × (s : Session) × (sha256 (codes "ftu_03") ≡ ok digest)
            × (lookup digest (run sessions_for_an_hour sha256 calls []) ≡ some s)
            × IsLive sessions_for_an_hour sha256 s Scope.user 310
            × (s.user ≡ (codes "alice"))))
verify_iff_example =
    verify_iff sessions_for_an_hour sha256 (codes "ftu_03") Scope.user 310
      (run sessions_for_an_hour sha256 calls []) (codes "alice")

count_of-run_example :
    count_of (codes "alice") Scope.user (run sessions_for_an_hour sha256 calls [])
    ≤ (if sessions_for_an_hour.max_per_user == 0 then 1 else sessions_for_an_hour.max_per_user)
count_of-run_example = count_of-run sessions_for_an_hour sha256 calls (codes "alice") Scope.user

abbrev entry : Entry
entry = record { failures = 6; last_failure = 100; blocked_until = 130 }

abbrev entries : Dict Entry
unfolding lower
entries = (pair_key (codes "Bob") (codes "10.0.0.1"), entry) ∷ []

abbrev attempts : List Attempt
attempts =
    failure (codes "bob") (codes "10.0.0.1") 100 ∷ success (codes "bob") (codes "10.0.0.2") ∷ []

check-failed_example :
    check
      (codes "Bob")
      (codes "10.0.0.1")
      210
      (failed limits (codes "Bob") (codes "10.0.0.1") 200 entries)
    ≡ err throttled
unfolding lookup same lower
check-failed_example =
    check-failed limits (codes "Bob") (codes "10.0.0.1") 200 210 entries entry (ground arith) refl
      (ground arith) (ground arith) (ground arith)

check-run_example :
    check (codes "bob") (codes "10.0.0.1") 1000 (Backoff.run limits attempts []) ≡ ok tt
unfolding last_of
check-run_example = check-run limits attempts (codes "bob") (codes "10.0.0.1") 1000 (ground arith)
