-- ===== src/Base/Bytes.antt =====
-- `std::string` as the list of its bytes: equality, the order of `operator<`, and literals.
use Prim.Native.Char.{code}
use Prim.Native.Nat.{ℕ}
use Prim.Native.String.{String}
use mathlib.Core.Path.{◌≡◌, refl}
use mathlib.Core.Logic.{◌↔◌, ◌⊎◌, inl, inr}
use mathlib.Core.Bool.{Bool, true, false, ◌&&◌, ◌||◌}
use mathlib.Core.List.{List, [], ◌∷◌}
use mathlib.Core.Option.{Option, none, some}
use ot_sec_file_transfer.Base.Tests.{if◌then◌else◌}
use native.Mathlib.Omega.{arith}
use ot_sec_file_transfer.Base.Tests.{◌==◌, ltb}

abbrev pub Text : Type 0
Text = List ℕ

-- The bytes of an ASCII literal.
abbrev pub codes : String → Text
codes String.[] = []
codes (String.◌∷◌ c s) = code c ∷ codes s

unfoldable pub same : Text → Text → Bool
same [] [] = true
same (x ∷ a) (y ∷ b) = x == y && same a b
same _ _ = false

-- Lexicographic, bytes compared as unsigned.
unfoldable pub precedes : Text → Text → Bool
precedes [] [] = false
precedes [] (y ∷ b) = true
precedes (x ∷ a) [] = false
precedes (x ∷ a) (y ∷ b) = ltb x y || (x == y && precedes a b)

-- The text before and after the first `c`; `none` where there is no `c`.
unfoldable pub before_first : ℕ → Text → Text
before_first c [] = []
before_first c (x ∷ text) = if x == c then [] else x ∷ before_first c text

unfoldable pub after_first : ℕ → Text → Option Text
after_first c [] = none
after_first c (x ∷ text) = if x == c then some text else after_first c text

pub same_refl : (a : Text) → same a a ≡ true
unfolding same
same_refl [] = refl
same_refl (x ∷ a) = ground (arith, same_refl a)

same_eq : (a b : Text) → same a b ≡ true → a ≡ b
unfolding same
same_eq [] [] h = refl
same_eq (x ∷ a) (y ∷ b) h = ground (arith, same_eq a b)
same_eq _ _ h = cc

eq_same : (a b : Text) → a ≡ b → same a b ≡ true
eq_same a b e = rw e (same_refl b)

pub same_iff : (a b : Text) → (same a b ≡ true) ↔ (a ≡ b)
same_iff a b = (same_eq a b, eq_same a b)

pub precedes_irrefl : (a : Text) → precedes a a ≡ false
unfolding precedes
precedes_irrefl [] = refl
precedes_irrefl (x ∷ a) = ground (arith, precedes_irrefl a)

pub precedes_trans :
    (a b c : Text) → precedes a b ≡ true → precedes b c ≡ true → precedes a c ≡ true
unfolding precedes
precedes_trans [] [] c h k = cc
precedes_trans [] (y ∷ b) [] h k = cc
precedes_trans [] (y ∷ b) (z ∷ c) h k = refl
precedes_trans (x ∷ a) [] c h k = cc
precedes_trans (x ∷ a) (y ∷ b) [] h k = cc
precedes_trans (x ∷ a) (y ∷ b) (z ∷ c) h k = ground (arith, precedes_trans a b c)

-- Two texts that neither precedes are the same.
pub precedes_total : (a b : Text) → (precedes a b ≡ true) ⊎ ((a ≡ b) ⊎ (precedes b a ≡ true))
unfolding precedes
precedes_total [] [] = inr (inl refl)
precedes_total [] (y ∷ b) = inl refl
precedes_total (x ∷ a) [] = inr (inr refl)
precedes_total (x ∷ a) (y ∷ b) = ground (arith, precedes_total a b)
