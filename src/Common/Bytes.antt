-- ===== src/Common/Bytes.antt =====
-- Shared by the byte codecs: bytes, texts as lookup tables, and checks over all small values.
use ot_sec_file_transfer.Base.{ltb, ℕ, zero, suc, ◌<◌, ◌≡◌, Bool, true, ◌&&◌, [], ◌∷◌, arith, Text}

abbrev pub IsByte : ℕ → Type 0
IsByte b = b < 256

-- The character at an index of a constant text; 0 outside.
abbrev pub char_at : Text → ℕ → ℕ
char_at [] i = 0
char_at (c ∷ s) zero = c
char_at (c ∷ s) (suc i) = char_at s i

-- Every number below a bound passes a test, by evaluation.
unfoldable pub every_below : ℕ → (ℕ → Bool) → Bool
every_below zero test = true
every_below (suc n) test = test n && every_below n test

pub every_below_sound :
    (n : ℕ) (test : ℕ → Bool) (x : ℕ) → every_below n test ≡ true → x < n → test x ≡ true
unfolding every_below
every_below_sound zero test x passed below = absurd (omega arith)
every_below_sound (suc n) test x passed below = ground (arith, every_below_sound n test x)

unfoldable pub is_ascii : Text → Bool
is_ascii [] = true
is_ascii (c ∷ s) = ltb c 128 && is_ascii s
