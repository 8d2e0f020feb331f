-- ===== src/Base/Map.antt =====
-- `std::unordered_map` keyed by a text, as an association list; its order of iteration is that of
-- the list, which the code does not rely on.
use mathlib.Core.Path.{◌≡◌, refl}
use mathlib.Core.List.{List, [], ◌∷◌}
use mathlib.Core.Option.{Option, none, some}
use native.Mathlib.Omega.{arith}
use ot_sec_file_transfer.Base.Tests.{if◌then◌else◌}
use ot_sec_file_transfer.Base.Bytes.{Text, same, same_iff}

abbrev pub Dict : Type 0 → Type 0
Dict V = List (Text × V)

module _ {V : Type 0} where
  unfoldable pub lookup : Text → Dict V → Option V
  lookup k [] = none
  lookup k ((j, v) ∷ m) = if same j k then some v else lookup k m

  -- `insert_or_assign`
  unfoldable pub put : Text → V → Dict V → Dict V
  put k v [] = (k, v) ∷ []
  put k v ((j, w) ∷ m) = if same j k then (k, v) ∷ m else (j, w) ∷ put k v m

  unfoldable pub erase : Text → Dict V → Dict V
  erase k [] = []
  erase k ((j, w) ∷ m) = if same j k then erase k m else (j, w) ∷ erase k m

  pub lookup-put :
      (k j : Text) (v : V) (m : Dict V)
      → lookup j (put k v m) ≡ (if same k j then some v else lookup j m)
  unfolding lookup put
  lookup-put k j v [] = refl
  lookup-put k j v ((i, w) ∷ m) =
      ground (arith, same_iff k j, same_iff i k, same_iff i j, lookup-put k j v m)

  pub lookup-erase :
      (k j : Text) (m : Dict V) → lookup j (erase k m) ≡ (if same k j then none else lookup j m)
  unfolding lookup erase
  lookup-erase k j [] = ground arith
  lookup-erase k j ((i, w) ∷ m) =
      ground (arith, same_iff k j, same_iff i k, same_iff i j, lookup-erase k j m)

  pub erase-put : (k : Text) (v : V) (m : Dict V) → erase k (put k v m) ≡ erase k m
  unfolding erase put
  erase-put k v [] = ground (arith, same_iff k k)
  erase-put k v ((i, w) ∷ m) = ground (arith, same_iff k k, erase-put k v m)
