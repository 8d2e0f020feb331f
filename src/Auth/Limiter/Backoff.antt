-- ===== src/Auth/Limiter/Backoff.antt =====
-- Who is refused, and for how long.
use ot_sec_file_transfer.Base.{
  ℕ, ◌+◌, ◌*◌, ◌-◌, ◌^◌, ◌≤◌, ◌<◌, ◌≡◌, ◌⊎◌, ◌↔◌, min, max, arith, List, [], ◌∷◌, some,
  if◌then◌else◌, Text, Dict, lookup, put, erase, same, same_iff, lookup-put, lookup-erase, ltb, leb,
  length, ok, err, throttled,
}
use ot_sec_file_transfer.Auth.Limiter.{
  LimiterOptions, Entry, user_key, source_key, pair_key, until_of, check, entry_or_new, delay,
  bump_entry, bump, drop_idle, failed, succeeded,
}

-- Calls are refused exactly while the pair, the address or the user is blocked.
pub check-throttled :
    (user source : Text) (now : ℕ) (m : Dict Entry)
    → (check user source now m ≡ err throttled) ↔ (
        (now < until_of (lookup (pair_key user source) m))
        ⊎ ((now < until_of (lookup (source_key source) m))
            ⊎ (now < until_of (lookup (user_key user) m))))
unfolding check
check-throttled user source now m = (λ h. ground arith, λ h. ground arith)

-- A password that was right clears the backoff of the user and of the pair, and not the one of the
-- address.
pub check-succeeded :
    (user source : Text) (now : ℕ) (m : Dict Entry)
    → check user source now (succeeded user source m)
      ≡ (if ltb now (until_of (lookup (source_key source) m)) then err throttled else ok tt)
unfolding check succeeded
check-succeeded user source now m = ground (
  arith,
  lookup-erase (user_key user) (pair_key user source) (erase (pair_key user source) m),
  lookup-erase (user_key user) (source_key source) (erase (pair_key user source) m),
  lookup-erase (user_key user) (user_key user) (erase (pair_key user source) m),
  lookup-erase (pair_key user source) (pair_key user source) m,
  lookup-erase (pair_key user source) (source_key source) m,
  same_iff (user_key user) (user_key user),
  same_iff (pair_key user source) (pair_key user source),
  same_iff (user_key user) (source_key source),
  same_iff (pair_key user source) (source_key source),
)

-- No key is blocked for longer than until a time.
abbrev IsQuiet : ℕ → Dict Entry → Type 0
IsQuiet bound [] = Unit
IsQuiet bound ((k, e) ∷ m) = (e.blocked_until ≤ bound) × IsQuiet bound m

lookup-IsQuiet :
    (bound : ℕ) (key : Text) (m : Dict Entry) → IsQuiet bound m → until_of (lookup key m) ≤ bound
unfolding lookup
lookup-IsQuiet bound key [] h = omega arith
lookup-IsQuiet bound key ((k, e) ∷ m) (h, hs) = ground (arith, lookup-IsQuiet bound key m hs)

put-IsQuiet :
    (bound : ℕ) (key : Text) (e : Entry) (m : Dict Entry)
    → e.blocked_until ≤ bound
    → IsQuiet bound m
    → IsQuiet bound (put key e m)
unfolding put
put-IsQuiet bound key e [] h hs = (h, tt)
put-IsQuiet bound key e ((k, f) ∷ m) h hs = ground (arith, put-IsQuiet bound key e m h hs.1)

erase-IsQuiet :
    (bound : ℕ) (key : Text) (m : Dict Entry) → IsQuiet bound m → IsQuiet bound (erase key m)
unfolding erase
erase-IsQuiet bound key [] hs = tt
erase-IsQuiet bound key ((k, f) ∷ m) hs = ground (arith, erase-IsQuiet bound key m hs.1)

-- The calls that change the entries.
pub data Attempt : Type 0 where
  failure : (user source : Text) (now : ℕ) → Attempt
  success : (user source : Text) → Attempt

-- The time of the last failure.
unfoldable pub last_of : List Attempt → ℕ
last_of [] = 0
last_of (failure user source now ∷ rest) = max now (last_of rest)
last_of (success user source ∷ rest) = last_of rest

module _ (o : LimiterOptions) where
  drop_idle-IsQuiet :
      (bound now : ℕ) (m : Dict Entry) → IsQuiet bound m → IsQuiet bound (drop_idle o now m)
  unfolding drop_idle
  drop_idle-IsQuiet bound now [] hs = tt
  drop_idle-IsQuiet bound now ((k, f) ∷ m) hs = ground (arith, drop_idle-IsQuiet bound now m hs.1)

  bump_entry-until :
      (bound free now : ℕ) (e : Entry)
      → now + o.max_delay ≤ bound
      → e.blocked_until ≤ bound
      → (bump_entry o e free now).blocked_until ≤ bound
  unfolding bump_entry delay
  bump_entry-until bound free now e h1 h2 = ground arith

  bump-IsQuiet :
      (bound : ℕ) (key : Text) (free now : ℕ) (m : Dict Entry)
      → now + o.max_delay ≤ bound
      → IsQuiet bound m
      → IsQuiet bound (bump o key free now m)
  unfolding bump
  bump-IsQuiet bound key free now m h hs =
      put-IsQuiet bound key (bump_entry o (entry_or_new (lookup key m)) free now) m
        (bump_entry-until bound free now (entry_or_new (lookup key m)) h
          (ground (arith, lookup-IsQuiet bound key m hs)))
        hs

  failed-IsQuiet :
      (bound : ℕ) (user source : Text) (now : ℕ) (m : Dict Entry)
      → now + o.max_delay ≤ bound
      → IsQuiet bound m
      → IsQuiet bound (failed o user source now m)
  unfolding failed
  failed-IsQuiet bound user source now m h hs =
      bump-IsQuiet bound (user_key user) o.free_per_user now _ h (
        bump-IsQuiet bound (source_key source) o.free_per_source now _ h (
          bump-IsQuiet bound (pair_key user source) o.free_per_pair now _ h
            (ground (arith, hs, drop_idle-IsQuiet bound now m hs))))

  unfoldable pub run : List Attempt → Dict Entry → Dict Entry
  run [] m = m
  run (failure user source now ∷ rest) m = run rest (failed o user source now m)
  run (success user source ∷ rest) m = run rest (succeeded user source m)

  run-IsQuiet :
      (bound : ℕ) (attempts : List Attempt) (m : Dict Entry)
      → last_of attempts + o.max_delay ≤ bound
      → IsQuiet bound m
      → IsQuiet bound (run attempts m)
  unfolding run last_of succeeded
  run-IsQuiet bound [] m h hs = hs
  run-IsQuiet bound (failure user source now ∷ rest) m h hs =
      run-IsQuiet bound rest (failed o user source now m) (omega (arith, h))
        (failed-IsQuiet bound user source now m (omega (arith, h)) hs)
  run-IsQuiet bound (success user source ∷ rest) m h hs =
      run-IsQuiet bound rest (succeeded user source m) h (
        erase-IsQuiet bound (user_key user) (erase (pair_key user source) m)
          (erase-IsQuiet bound (pair_key user source) m hs))

  -- Whatever attempts were made, no one is refused once `max_delay` has passed since the last
  -- failure.
  pub check-run :
      (attempts : List Attempt) (user source : Text) (now : ℕ)
      → last_of attempts + o.max_delay ≤ now
      → check user source now (run attempts []) ≡ ok tt
  unfolding check
  check-run attempts user source now h =
      let quiet = run-IsQuiet now attempts [] h tt in
      ground (
        arith,
        lookup-IsQuiet now (pair_key user source) (run attempts []) quiet,
        lookup-IsQuiet now (source_key source) (run attempts []) quiet,
        lookup-IsQuiet now (user_key user) (run attempts []) quiet,
      )

  bump_entry-delay :
      (e : Entry) (free now : ℕ)
      → free ≤ e.failures
      → e.failures + 1 < 2 ^ 32
      → (bump_entry o e free now).blocked_until
        ≡ now + min (o.base_delay * 2 ^ min (e.failures - free) 20) o.max_delay
  unfolding bump_entry delay
  bump_entry-delay e free now h1 h2 = ground (arith)

  lookup-bump :
      (key other : Text) (free now : ℕ) (m : Dict Entry)
      → lookup other (bump o key free now m) ≡ (
          if same key other
          then some (bump_entry o (entry_or_new (lookup key m)) free now)
          else lookup other m)
  unfolding bump
  lookup-bump key other free now m =
      lookup-put key other (bump_entry o (entry_or_new (lookup key m)) free now) m

  lookup-failed :
      (user source : Text) (now : ℕ) (m : Dict Entry)
      → length m < o.max_keys
      → lookup (pair_key user source) (failed o user source now m)
        ≡ some (bump_entry o (entry_or_new (lookup (pair_key user source) m)) o.free_per_pair now)
  unfolding failed
  lookup-failed user source now m h =
      let cleaned = if leb o.max_keys (length m) then drop_idle o now m else m in
      let after_pair = bump o (pair_key user source) o.free_per_pair now cleaned in
      let after_source = bump o (source_key source) o.free_per_source now after_pair in
      ground (
        arith,
        lookup-bump (user_key user) (pair_key user source) o.free_per_user now after_source,
        lookup-bump (source_key source) (pair_key user source) o.free_per_source now after_pair,
        lookup-bump (pair_key user source) (pair_key user source) o.free_per_pair now cleaned,
        same_iff (pair_key user source) (pair_key user source),
        same_iff (user_key user) (pair_key user source),
        same_iff (source_key source) (pair_key user source),
      )

  -- A failure of a pair that has used up its free attempts is followed by a delay that doubles with
  -- each failure, up to `max_delay`, in which the pair is refused; the keys are below `max_keys`,
  -- so that none is dropped.
  pub check-failed :
      (user source : Text) (now later : ℕ) (m : Dict Entry) (e : Entry)
      → length m < o.max_keys
      → lookup (pair_key user source) m ≡ some e
      → o.free_per_pair ≤ e.failures
      → e.failures + 1 < 2 ^ 32
      → later < now + min (o.base_delay * 2 ^ min (e.failures - o.free_per_pair) 20) o.max_delay
      → check user source later (failed o user source now m) ≡ err throttled
  check-failed user source now later m e h1 h2 h3 h4 h5 =
      (check-throttled user source later (failed o user source now m)).1 (
        ground
          (arith, lookup-failed user source now m h1, bump_entry-delay e o.free_per_pair now h3 h4))
