-- ===== src/Auth/Limiter.antt =====
-- auth/login_limiter.hpp and login_limiter.cpp. `mutex_` makes each method one step, and the time of
-- the clock is an argument. `failures` is a `uint32_t` and wraps; the delay, an `int64_t` of seconds,
-- is exact for a `base_delay` below 2 ^ 43 seconds.
pub mod Backoff
use ot_sec_file_transfer.Base.{
  ℕ, suc, ◌+◌, ◌*◌, ◌-◌, ◌%◌, ◌^◌, ◌≤◌, ◌<◌, min, max, Bool, true, false, not, ◌&&◌, List, [], ◌∷◌,
  ◌++◌, Option, none, some, if◌then◌else◌, Text, Dict, codes, lookup, put, erase, ltb, leb, length,
  Result, Void, ok, err, throttled, fail_if,
}

pub record LimiterOptions : Type 0 where
  pub free_per_pair : ℕ
  pub free_per_source : ℕ
  pub free_per_user : ℕ
  pub base_delay : ℕ
  pub max_delay : ℕ
  pub max_keys : ℕ

pub record Entry : Type 0 where
  pub failures : ℕ
  pub last_failure : ℕ
  pub blocked_until : ℕ

-- `std::tolower` in the "C" locale.
abbrev pub lower_char : ℕ → ℕ
lower_char c = if leb 65 c && leb c 90 then c + 32 else c

unfoldable pub lower : Text → Text
lower [] = []
lower (c ∷ s) = lower_char c ∷ lower s

abbrev pub user_key : Text → Text
user_key user = codes "u:" ++ lower user

abbrev pub source_key : Text → Text
source_key source = codes "s:" ++ source

abbrev pub pair_key : Text → Text → Text
pair_key user source = codes "p:" ++ (lower user ++ (58 ∷ source))

abbrev pub until_of : Option Entry → ℕ
until_of none = 0
until_of (some e) = e.blocked_until

-- The loop of `check` over the keys.
abbrev pub blocked_for : List Text → ℕ → Dict Entry → ℕ
blocked_for [] until m = until
blocked_for (key ∷ keys) until m = blocked_for keys (max until (until_of (lookup key m))) m

unfoldable pub check : Text → Text → ℕ → Dict Entry → Void
check user source now m =
    let until = blocked_for (pair_key user source ∷ source_key source ∷ user_key user ∷ []) 0 m in
    fail_if (ltb now until) throttled

-- `entries_[key]`
abbrev pub entry_or_new : Option Entry → Entry
entry_or_new none = record { failures = 0; last_failure = 0; blocked_until = 0 }
entry_or_new (some e) = e

module _ (o : LimiterOptions) where
  unfoldable pub delay : ℕ → ℕ → ℕ
  delay failures free = min (o.base_delay * 2 ^ min (failures - free - 1) 20) o.max_delay

  unfoldable pub bump_entry : Entry → ℕ → ℕ → Entry
  bump_entry e free now =
      let failures = (e.failures + 1) % 2 ^ 32 in
      record {
        failures = failures;
        last_failure = now;
        blocked_until = if leb failures free then e.blocked_until else now + delay failures free;
      }

  unfoldable pub bump : Text → ℕ → ℕ → Dict Entry → Dict Entry
  bump key free now m = put key (bump_entry (entry_or_new (lookup key m)) free now) m

  abbrev pub is_idle : Entry → ℕ → Bool
  is_idle e now = leb e.blocked_until now && leb (e.last_failure + o.max_delay) now

  unfoldable pub drop_idle : ℕ → Dict Entry → Dict Entry
  drop_idle now [] = []
  drop_idle now ((k, e) ∷ m) =
      let rest = drop_idle now m in if is_idle e now then rest else (k, e) ∷ rest

  unfoldable pub failed : Text → Text → ℕ → Dict Entry → Dict Entry
  failed user source now m =
      let cleaned = if leb o.max_keys (length m) then drop_idle now m else m in
      bump (user_key user) o.free_per_user now (
        bump (source_key source) o.free_per_source now
          (bump (pair_key user source) o.free_per_pair now cleaned))

unfoldable pub succeeded : Text → Text → Dict Entry → Dict Entry
succeeded user source m = erase (user_key user) (erase (pair_key user source) m)
