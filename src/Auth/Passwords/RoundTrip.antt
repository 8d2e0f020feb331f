-- ===== src/Auth/Passwords/RoundTrip.antt =====
-- A stored password is read back as it was written.
use mathlib.Core.List.{append-nil, append_assoc}
use ot_sec_file_transfer.Base.{
  ℕ, zero, suc, ◌+◌, ◌*◌, ◌/◌, ◌%◌, ◌^◌, ◌≤◌, ◌≡◌, refl, ap, ◌∙◌, arith, Bool, true, false, not,
  ◌&&◌, List, [], ◌∷◌, ◌++◌, Text, same, is_empty, ◌==◌, Every, ok,
}
use ot_sec_file_transfer.Common.Bytes.{IsByte, char_at, every_below, every_below_sound}
use ot_sec_file_transfer.Common.Base64.{base64_encode, alphabet, group_digit}
use ot_sec_file_transfer.Common.Base64.RoundTrip.{base64_decode-base64_encode}
use ot_sec_file_transfer.Common.Numbers.RoundTrip.{from_chars-decimal}
use ot_sec_file_transfer.Common.Times.{decimal, decimal_from}
use ot_sec_file_transfer.Api.Router.{split_on}
use ot_sec_file_transfer.Auth.Passwords.{
  PasswordHash, max_iterations, scheme, check_iterations, parse_parts, parse, to_string,
}

unfoldable pub lacks : ℕ → Text → Bool
lacks c [] = true
lacks c (x ∷ text) = not (x == c) && lacks c text

-- Joined parts are split where they were joined.
split_on-lacks :
    (c : ℕ) (part text rest : Text)
    → lacks c text ≡ true
    → split_on c part (text ++ c ∷ rest) ≡ (part ++ text) ∷ split_on c [] rest
unfolding split_on lacks
split_on-lacks c part [] rest h = ground (arith, append-nil part)
split_on-lacks c part (x ∷ text) rest h =
    ground (arith, split_on-lacks c (part ++ x ∷ []) text rest, append_assoc part (x ∷ []) text)

split_on_last :
    (c : ℕ) (part text : Text) → lacks c text ≡ true → split_on c part text ≡ (part ++ text) ∷ []
unfolding split_on lacks
split_on_last c part [] h = ground (arith, append-nil part)
split_on_last c part (x ∷ text) h =
    ground (arith, split_on_last c (part ++ x ∷ []) text, append_assoc part (x ∷ []) text)

digits_table : every_below 64 (λ n. not (char_at alphabet n == b'$')) ≡ true
unfolding every_below
digits_table = refl

group_digit-lacks : (group shift : ℕ) → not (group_digit group shift == b'$') ≡ true
unfolding group_digit
group_digit-lacks group shift =
    every_below_sound 64 (λ n. not (char_at alphabet n == b'$')) (group / 2 ^ shift % 64)
      digits_table (omega arith)

base64_encode-lacks : (bytes : List ℕ) → lacks b'$' (base64_encode bytes) ≡ true
unfolding base64_encode lacks
base64_encode-lacks [] = refl
base64_encode-lacks (a ∷ []) =
    let group = a * 65536 in ground (arith, group_digit-lacks group 18, group_digit-lacks group 12)
base64_encode-lacks (a ∷ b ∷ []) =
    let group = (a * 256 + b) * 256 in
    ground
      (arith, group_digit-lacks group 18, group_digit-lacks group 12, group_digit-lacks group 6)
base64_encode-lacks (a ∷ b ∷ c ∷ rest) =
    let group = (a * 256 + b) * 256 + c in
    ground (
      arith,
      group_digit-lacks group 18,
      group_digit-lacks group 12,
      group_digit-lacks group 6,
      group_digit-lacks group 0,
      base64_encode-lacks rest,
    )

decimal_from-lacks :
    (fuel n : ℕ) (after : Text)
    → lacks b'$' after ≡ true
    → lacks b'$' (decimal_from fuel n after) ≡ true
unfolding decimal_from lacks
decimal_from-lacks zero n after h = h
decimal_from-lacks (suc fuel) n after h =
    ground (arith, decimal_from-lacks fuel (n / 10) ((48 + n % 10) ∷ after))

-- A hash that `create` or `parse` gives.
pub record IsHash (h : PasswordHash) : Type 0 where
  pub positive : 1 ≤ h.iterations
  pub bounded : h.iterations ≤ max_iterations
  pub salt : is_empty h.salt ≡ false
  pub key : is_empty h.key ≡ false
  pub salt_bytes : Every IsByte h.salt
  pub key_bytes : Every IsByte h.key

split_on-to_string :
    (h : PasswordHash)
    → split_on b'$' [] (to_string h)
      ≡ scheme ∷ decimal h.iterations ∷ base64_encode h.salt ∷ base64_encode h.key ∷ []
unfolding to_string decimal lacks
split_on-to_string h =
    let count = decimal h.iterations in
    let salt = base64_encode h.salt in
    let key = base64_encode h.key in
    split_on-lacks b'$' [] scheme (count ++ (b'$' ∷ (salt ++ (b'$' ∷ key)))) refl
    ∙ ap (λ l. scheme ∷ l)
        (split_on-lacks b'$' [] count (salt ++ (b'$' ∷ key))
            (decimal_from-lacks (h.iterations + 1) h.iterations [] refl)
          ∙ ap (λ l. count ∷ l)
              (split_on-lacks b'$' [] salt key (base64_encode-lacks h.salt)
                ∙ ap (λ l. salt ∷ l) (split_on_last b'$' [] key (base64_encode-lacks h.key))))

-- The stored form of a password, with 1 to 10,000,000 iterations and a salt and a key of bytes that
-- are not empty, is read back.
pub parse-to_string : (h : PasswordHash) → IsHash h → parse (to_string h) ≡ ok h
unfolding parse parse_parts check_iterations same
parse-to_string h v = rw (split_on-to_string h) (
    ground (
      arith,
      from_chars-decimal (2 ^ 32) h.iterations (omega (arith, v.bounded)),
      base64_decode-base64_encode h.salt v.salt_bytes,
      base64_decode-base64_encode h.key v.key_bytes,
      v.positive,
      v.bounded,
      v.salt,
      v.key,
    ))
