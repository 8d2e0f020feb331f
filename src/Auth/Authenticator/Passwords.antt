-- ===== src/Auth/Authenticator/Passwords.antt =====
-- Who is let in by a password, and when the directory is not asked.
use mathlib.Core.Bool.{true≢false}
use mathlib.Core.Path.{subst}
use ot_sec_file_transfer.Base.{
  ℕ, ◌+◌, ◌*◌, ◌/◌, ◌%◌, ◌^◌, ◌≡◌, ◌≢◌, ◌⊎◌, refl, ap, sym, ◌∙◌, arith, Bool, true, false, not,
  List, [], ◌∷◌, ◌++◌, some, Text, codes, ◌==◌, is_empty, before_first, after_first, Result,
  Bool-cases, ErrCode, auth, ok, err, inl, inr, throttled, Every,
}
use ot_sec_file_transfer.Common.Bytes.{IsByte, char_at, every_below, every_below_sound}
use ot_sec_file_transfer.Common.Base64.{alphabet, group_digit, base64_encode}
use ot_sec_file_transfer.Common.Base64.RoundTrip.{base64_decode-base64_encode}
use ot_sec_file_transfer.Auth.Sessions.{SessionOptions}
use ot_sec_file_transfer.Auth.Limiter.{LimiterOptions, check, succeeded, failed}
use ot_sec_file_transfer.Auth.Authenticator.{
  Guard, is_auth, credentials, drop_spaces, iequals, pair_of, basic_pair, ask,
  authenticate_password, authenticate_admin_password, authenticate_admin,
}

-- No byte of a text is `c`.
abbrev pub IsFree : ℕ → Text → Type 0
IsFree c text = Every (λ x. x ≢ c) text

before_first-append : (c : ℕ) (a b : Text) → IsFree c a → before_first c (a ++ (c ∷ b)) ≡ a
unfolding before_first
before_first-append c [] b h = ground arith
before_first-append c (x ∷ a) b (h, hs) = ground (arith, before_first-append c a b hs)

after_first-append : (c : ℕ) (a b : Text) → IsFree c a → after_first c (a ++ (c ∷ b)) ≡ some b
unfolding after_first
after_first-append c [] b h = ground arith
after_first-append c (x ∷ a) b (h, hs) = ground (arith, after_first-append c a b hs)

space_table : every_below 64 (λ i. not (char_at alphabet i == 32)) ≡ true
unfolding every_below
space_table = refl

group_digit-space : (group shift : ℕ) → (group_digit group shift == 32) ≡ false
unfolding group_digit
group_digit-space group shift = ground (
  arith,
  every_below_sound 64 (λ i. not (char_at alphabet i == 32)) (group / 2 ^ shift % 64) space_table
      (omega arith),
)

drop_spaces-base64_encode :
    (bytes : List ℕ) → drop_spaces (base64_encode bytes) ≡ base64_encode bytes
unfolding drop_spaces base64_encode
drop_spaces-base64_encode [] = refl
drop_spaces-base64_encode (a ∷ []) = ground (arith, group_digit-space (a * 65536) 18)
drop_spaces-base64_encode (a ∷ b ∷ []) = ground (arith, group_digit-space ((a * 256 + b) * 256) 18)
drop_spaces-base64_encode (a ∷ b ∷ c ∷ rest) =
    ground (arith, group_digit-space ((a * 256 + b) * 256 + c) 18)

credentials-basic :
    (text : Text) → credentials (codes "Basic " ++ text) (codes "Basic") ≡ some (drop_spaces text)
unfolding credentials after_first before_first iequals
credentials-basic text = refl

pair_of-append :
    (name password : Text)
    → IsFree 58 name
    → pair_of (ok (name ++ (58 ∷ password))) ≡ ok (name, password)
unfolding pair_of
pair_of-append name password h =
    ground (arith, before_first-append 58 name password h, after_first-append 58 name password h)

-- The name and the password of a header that a client writes.
basic_pair-encode :
    (name password : Text)
    → IsFree 58 name
    → Every IsByte (name ++ (58 ∷ password))
    → basic_pair (codes "Basic " ++ base64_encode (name ++ (58 ∷ password))) ≡ ok (name, password)
unfolding basic_pair
basic_pair-encode name password h1 h2 = ground (
  arith,
  credentials-basic (base64_encode (name ++ (58 ∷ password))),
  drop_spaces-base64_encode (name ++ (58 ∷ password)),
  base64_decode-base64_encode (name ++ (58 ∷ password)) h2,
  pair_of-append name password h1,
)

Result-outcomes :
    {A : Type 0} (r : Result A) → ((e : ErrCode) × (r ≡ err e)) ⊎ ((a : A) × (r ≡ ok a))
Result-outcomes (ok a) = inr (a, refl)
Result-outcomes (err e) = inl (e, refl)

is_auth-true : (e : ErrCode) → is_auth e ≡ true → e ≡ auth
is_auth-true auth h = refl
is_auth-true _ h = cc

is_auth-false : (e : ErrCode) → is_auth e ≡ false → e ≢ auth
is_auth-false e h is = true≢false (sym (ap is_auth is) ∙ h)

module _ (o : LimiterOptions) (directory : Text → Text → Result Text) where
  -- What comes of a name and a password: the result and the state of the guard after it.
  pub data Outcome (name password source : Text) (now : ℕ) (g : Guard) (out : Result Text × Guard)
      : Type 0 where
    refused :
        (e : ErrCode)
        → check name source now g.entries ≡ err e
        → out ≡ (err e, g)
        → Outcome name password source now g out
    known :
        (found : Text)
        → check name source now g.entries ≡ ok tt
        → directory name password ≡ ok found
        → out ≡ (ok found, record g { entries = succeeded name source g.entries })
        → Outcome name password source now g out
    unknown :
        check name source now g.entries ≡ ok tt
        → directory name password ≡ err auth
        → out ≡ (err auth, record g { entries = failed o name source now g.entries })
        → Outcome name password source now g out
    unanswered :
        (e : ErrCode)
        → check name source now g.entries ≡ ok tt
        → directory name password ≡ err e
        → e ≢ auth
        → out ≡ (err e, g)
        → Outcome name password source now g out

  ask-refused :
      (name password source : Text) (now : ℕ) (g : Guard) (e : ErrCode)
      → check name source now g.entries ≡ ok tt
      → directory name password ≡ err e
      → Outcome name password source now g (ask o directory name password source now g)
  ask-refused name password source now g e c d = elim (Bool-cases (is_auth e)) [
    | inl a ↦ unknown c (d ∙ ap err (is_auth-true e a)) (ground (arith, is_auth-true e a))
    | inr a ↦ unanswered e c d (is_auth-false e a) (ground arith)
  ]

  ask-Outcome :
      (name password source : Text) (now : ℕ) (g : Guard)
      → Outcome name password source now g (ask o directory name password source now g)
  ask-Outcome name password source now g =
      elim (Result-outcomes (check name source now g.entries)) [
        | inl (e, c) ↦ refused e c (ground arith)
        | inr (_, c) ↦ elim (Result-outcomes (directory name password)) [
          | inl (e, d) ↦ ask-refused name password source now g e c d
          | inr (found, d) ↦ known found c d (ground arith)
        ]
      ]

  authenticate_password-ask :
      (name password source : Text) (now : ℕ) (g : Guard)
      → IsFree 58 name
      → Every IsByte (name ++ (58 ∷ password))
      → authenticate_password o directory
          (codes "Basic " ++ base64_encode (name ++ (58 ∷ password)))
          source
          now
          g
        ≡ ask o directory name password source now g
  unfolding authenticate_password
  authenticate_password-ask name password source now g h1 h2 =
      ground (arith, basic_pair-encode name password h1 h2)

  -- A name and a password that a client sends as Basic credentials, the name without a colon, are
  -- refused with no change while they are throttled. Otherwise they are answered as the directory
  -- answers them: one that it knows clears the counters of the limiter, one that it refuses with
  -- `auth` is counted as a failure, and any other error counts as nothing.
  pub authenticate_password-encode :
      (name password source : Text) (now : ℕ) (g : Guard)
      → IsFree 58 name
      → Every IsByte (name ++ (58 ∷ password))
      → Outcome name password source now g (
          authenticate_password o directory
            (codes "Basic " ++ base64_encode (name ++ (58 ∷ password)))
            source
            now
            g)
  authenticate_password-encode name password source now g h1 h2 =
      subst (Outcome name password source now g)
        (sym (authenticate_password-ask name password source now g h1 h2))
        (ask-Outcome name password source now g)

  -- A header lets someone in by a password only if its name and password are not throttled and the
  -- directory knows them under the name that is given; the counters of the name are then cleared.
  pub authenticate_password_sound :
      (header source : Text) (now : ℕ) (g : Guard) (found : Text)
      → (authenticate_password o directory header source now g).0 ≡ ok found
      → (name : Text) × (password : Text) × (basic_pair header ≡ ok (name, password))
        × (check name source now g.entries ≡ ok tt)
        × (directory name password ≡ ok found)
        × ((authenticate_password o directory header source now g).1
            ≡ record g { entries = succeeded name source g.entries })
  unfolding authenticate_password
  authenticate_password_sound header source now g found h = ground arith

  -- A throttled name or address changes nothing, whatever the directory would say.
  pub authenticate_password-throttled :
      (header name password source : Text) (now : ℕ) (g : Guard)
      → basic_pair header ≡ ok (name, password)
      → check name source now g.entries ≡ err throttled
      → authenticate_password o directory header source now g ≡ (err throttled, g)
  unfolding authenticate_password
  authenticate_password-throttled header name password source now g h1 h2 = ground arith

  module _ (so : SessionOptions) (sha256 : Text → Result (List ℕ)) where
    -- Nobody gets through the administrators' checks who is not in the group at that time, and
    -- nobody at all if no group is configured.
    pub authenticate_admin-member :
        (is_member : Text → Text → Bool) (group header source : Text) (now : ℕ) (g : Guard)
        (name : Text)
        → ((authenticate_admin so sha256 o directory is_member group header source now g).0
            ≡ ok name)
          ⊎ ((authenticate_admin_password so sha256 o directory is_member group header source now
                g).0
              ≡ ok name)
        → (is_member name group ≡ true) × (is_empty group ≡ false)
    unfolding authenticate_admin authenticate_admin_password
    authenticate_admin-member is_member group header source now g name h = ground arith
