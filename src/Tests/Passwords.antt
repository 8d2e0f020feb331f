-- ===== src/Tests/Passwords.antt =====
-- Stored passwords, and logins against them.
use ot_sec_file_transfer.Base.{ℕ, ◌≡◌, refl, arith, List, [], ◌∷◌, ◌++◌, Text, codes, Result, ok}
use ot_sec_file_transfer.Auth.Passwords.{PasswordHash, parse, to_string}
use ot_sec_file_transfer.Auth.Passwords.RoundTrip.{IsHash, parse-to_string}
use ot_sec_file_transfer.Auth.LocalDirectory.{Directory, verify_all, fingerprint}
use ot_sec_file_transfer.Auth.LocalDirectory.Cache.{
  IsCollisionFree, plain_verify_all, verify_all_refines,
}

abbrev hash : PasswordHash
hash = record { iterations = 600000; salt = 1 ∷ 2 ∷ 3 ∷ []; key = codes "secret" }

hash-IsHash : IsHash hash
hash-IsHash = record {
  positive = omega arith;
  bounded = omega arith;
  salt = refl;
  key = refl;
  salt_bytes = ground arith;
  key_bytes = ground arith;
}

parse-to_string_example : parse (to_string hash) ≡ ok hash
parse-to_string_example = parse-to_string hash hash-IsHash

-- A derivation that is the password, and a digest that is the text.
abbrev pbkdf2 : Text → List ℕ → ℕ → ℕ → Result (List ℕ)
pbkdf2 password salt iterations key_bytes = ok password

abbrev sha256 : Text → Result (List ℕ)
sha256 text = ok text

append_cancel : (xs p q : Text) → xs ++ p ≡ xs ++ q → p ≡ q
append_cancel [] p q h = h
append_cancel (x ∷ xs) p q h = append_cancel xs p q (ground arith)

abbrev d : Directory
d = record { users = (codes "alice", hash) ∷ []; groups = [] }

abbrev logins : List (Text × Text)
logins =
    (codes "alice", codes "guess")
    ∷ (codes "alice", codes "secret")
    ∷ (codes "alice", codes "secret")
    ∷ (codes "bob", codes "secret")
    ∷ []

logins-IsCollisionFree : IsCollisionFree sha256 d logins
unfolding IsCollisionFree fingerprint
logins-IsCollisionFree user h p q print u s t a b = append_cancel h.salt p q (ground arith)

verify_all_refines_example : verify_all pbkdf2 sha256 d logins [] ≡ plain_verify_all pbkdf2 d logins
verify_all_refines_example = verify_all_refines pbkdf2 sha256 d logins logins-IsCollisionFree
