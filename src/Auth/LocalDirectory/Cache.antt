-- ===== src/Auth/LocalDirectory/Cache.antt =====
-- The cache of verified passwords is not seen: a login is answered as PBKDF2 answers it.
use ot_sec_file_transfer.Base.{
  ℕ, ◌≡◌, refl, arith, true, List, [], ◌∷◌, Option-cases, ◌⊎◌, inl, inr, none, some, if◌then◌else◌,
  Text, Dict, lookup, lookup-put, same_iff, Result, Result-cases, ok, err, auth,
}
use ot_sec_file_transfer.Auth.Passwords.{PasswordHash, verify}
use ot_sec_file_transfer.Auth.LocalDirectory.{
  Directory, fingerprint, is_cached, remember, check_password, verify_user, verify_all,
}

module _ (pbkdf2 : Text → List ℕ → ℕ → ℕ → Result (List ℕ)) where
  -- The specification: a login by PBKDF2 alone.
  unfoldable pub plain_verify : Directory → Text → Text → Result Text
  plain_verify d user password = elim (lookup user d.users) [
    | none ↦ err auth
    | some hash ↦ if verify pbkdf2 hash password then ok user else err auth
  ]

  unfoldable pub plain_verify_all : Directory → List (Text × Text) → List (Result Text)
  plain_verify_all d [] = []
  plain_verify_all d ((user, password) ∷ logins) =
      plain_verify d user password ∷ plain_verify_all d logins

-- A password is one of those that are tried.
abbrev pub IsTried : Text → List (Text × Text) → Type 0
IsTried p [] = ⊥
IsTried p ((user, password) ∷ logins) = (p ≡ password) ⊎ IsTried p logins

-- No two passwords of the logins have the same digest with the salt of a user.
unfoldable pub IsCollisionFree : (Text → Result (List ℕ)) → Directory → List (Text × Text) → Type 0
IsCollisionFree sha256 d logins =
    (user : Text) (hash : PasswordHash) (p q : Text) (print : List ℕ)
    → lookup user d.users ≡ some hash
    → IsTried p logins
    → IsTried q logins
    → fingerprint sha256 hash p ≡ ok print
    → fingerprint sha256 hash q ≡ ok print
    → p ≡ q

module _ (pbkdf2 : Text → List ℕ → ℕ → ℕ → Result (List ℕ)) (sha256 : Text → Result (List ℕ))
    (d : Directory) (tried : List (Text × Text)) where
  -- Each digest in the cache is that of a password that was tried and that PBKDF2 accepts.
  unfoldable pub IsVerified : Dict (List ℕ) → Type 0
  IsVerified verified =
      (user : Text) (print : List ℕ) (hash : PasswordHash)
      → lookup user verified ≡ some print
      → lookup user d.users ≡ some hash
      → (password : Text) × (IsTried password tried
          × (fingerprint sha256 hash password ≡ ok print)
          × (verify pbkdf2 hash password ≡ true))

  pub IsVerified-[] : IsVerified []
  unfolding IsVerified lookup
  IsVerified-[] user print hash e u = ground arith

  module _ (free : IsCollisionFree sha256 d tried) where
    check_password-verify :
        (user : Text) (hash : PasswordHash) (password : Text) (verified : Dict (List ℕ))
        → IsVerified verified
        → IsTried password tried
        → lookup user d.users ≡ some hash
        → (check_password pbkdf2 sha256 user hash password verified).0 ≡ verify pbkdf2 hash password
    unfolding check_password is_cached IsVerified IsCollisionFree
    check_password-verify user hash password verified h t u =
        elim (Result-cases (fingerprint sha256 hash password)) [
          | inl e ↦ ground arith
          | inr (print, e) ↦ elim (Option-cases (lookup user verified)) [
            | inl n ↦ ground arith
            | inr (known, n) ↦
                let (old, (is, p, v)) = h user known hash n u in
                ground (arith, same_iff known print, free user hash old password print u is t)
          ]
        ]

    check_password-cases :
        (user : Text) (hash : PasswordHash) (password : Text) (verified : Dict (List ℕ))
        (other : Text) (print : List ℕ)
        → lookup other (check_password pbkdf2 sha256 user hash password verified).1 ≡ some print
        → (lookup other verified ≡ some print)
          ⊎ ((user ≡ other)
              × ((fingerprint sha256 hash password ≡ ok print)
                  × (verify pbkdf2 hash password ≡ true)))
    unfolding check_password is_cached remember
    check_password-cases user hash password verified other print e =
        elim (Result-cases (fingerprint sha256 hash password)) [
          | inl f ↦ ground arith
          | inr (new, f) ↦ ground (arith, lookup-put user other new verified, same_iff user other)
        ]

    check_password-IsVerified :
        (user : Text) (hash : PasswordHash) (password : Text) (verified : Dict (List ℕ))
        → IsVerified verified
        → IsTried password tried
        → lookup user d.users ≡ some hash
        → IsVerified (check_password pbkdf2 sha256 user hash password verified).1
    unfolding IsVerified
    check_password-IsVerified user hash password verified h t u other print hash' e u' =
        elim (check_password-cases user hash password verified other print e) [
          | inl old ↦ h other print hash' old u'
          | inr (is, (f, v)) ↦
              let eq : hash ≡ hash' = ground arith in (password, (t, ground arith, ground arith))
        ]

    verify_user-refines :
        (user password : Text) (verified : Dict (List ℕ))
        → IsVerified verified
        → IsTried password tried
        → ((verify_user pbkdf2 sha256 d user password verified).0
            ≡ plain_verify pbkdf2 d user password)
          × IsVerified (verify_user pbkdf2 sha256 d user password verified).1
    unfolding verify_user plain_verify
    verify_user-refines user password verified h t = elim (Option-cases (lookup user d.users)) [
      | inl n ↦ rw (verify_user, plain_verify, n) (refl, h)
      | inr (hash, u) ↦
          rw (verify_user, plain_verify, u)
            ((
              ground (arith, check_password-verify user hash password verified h t u),
              check_password-IsVerified user hash password verified h t u,
            ))
    ]

    verify_all-from :
        (logins : List (Text × Text)) (verified : Dict (List ℕ))
        → IsVerified verified
        → ((p : Text) → IsTried p logins → IsTried p tried)
        → verify_all pbkdf2 sha256 d logins verified ≡ plain_verify_all pbkdf2 d logins
    unfolding verify_all plain_verify_all
    verify_all-from [] verified h t = refl
    verify_all-from ((user, password) ∷ logins) verified h t =
        let (same_answer, h') =
          verify_user-refines user password verified h (t password (inl refl)) in
        ground (
          arith,
          same_answer,
          verify_all-from logins (verify_user pbkdf2 sha256 d user password verified).1 h'
              (λ p is. t p (inr is)),
        )

module _ (pbkdf2 : Text → List ℕ → ℕ → ℕ → Result (List ℕ)) (sha256 : Text → Result (List ℕ))
    (d : Directory) where
  -- Where no two passwords of a sequence of logins have the same SHA-256 digest with the salt of a
  -- user, the sequence, started with an empty cache, is answered, one by one, as it is by PBKDF2
  -- alone.
  pub verify_all_refines :
      (logins : List (Text × Text))
      → IsCollisionFree sha256 d logins
      → verify_all pbkdf2 sha256 d logins [] ≡ plain_verify_all pbkdf2 d logins
  verify_all_refines logins free =
      verify_all-from pbkdf2 sha256 d logins free logins [] (IsVerified-[] pbkdf2 sha256 d logins)
        (λ p is. is)
