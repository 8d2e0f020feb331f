-- ===== src/Base/Sort.antt =====
-- `std::ranges::sort` by a comparator, as insertion sort: where the comparator is a strict total
-- order on the elements, the sorted sequence does not depend on the algorithm.
use mathlib.Core.List.{Perm}
use mathlib.Core.List.Perm
use ot_sec_file_transfer.Base.{◌≡◌, Bool, true, false, List, [], ◌∷◌, arith, if◌then◌else◌, Every}

module _ {ℓ} {A : Type ℓ} (before : A → A → Bool) where
  unfoldable pub insert_sorted : A → List A → List A
  insert_sorted x [] = x ∷ []
  insert_sorted x (y ∷ ys) = if before y x then y ∷ insert_sorted x ys else x ∷ y ∷ ys

  unfoldable pub sort : List A → List A
  unfolding insert_sorted
  sort [] = []
  sort (x ∷ xs) = insert_sorted x (sort xs)

  pub insert_sorted-perm : (x : A) (xs : List A) → Perm (insert_sorted x xs) (x ∷ xs)
  unfolding insert_sorted
  insert_sorted-perm x [] = Perm.refl (x ∷ [])
  insert_sorted-perm x (y ∷ ys) =
      elim (before y x)
        as (λ b. Perm (if b then y ∷ insert_sorted x ys else x ∷ y ∷ ys) (x ∷ y ∷ ys)) [
          | true ↦ Perm.trans (Perm.cons y (insert_sorted-perm x ys)) (Perm.swap x y ys)
          | false ↦ Perm.refl (x ∷ y ∷ ys)
        ]

  pub sort-perm : (xs : List A) → Perm (sort xs) xs
  unfolding sort
  sort-perm [] = Perm.nil
  sort-perm (x ∷ xs) = Perm.trans (insert_sorted-perm x (sort xs)) (Perm.cons x (sort-perm xs))

  -- No later element comes before an earlier one.
  abbrev pub IsSorted : List A → Type ℓ
  IsSorted [] = Unit
  IsSorted (x ∷ xs) = Every (λ y. before y x ≡ false) xs × IsSorted xs

  module _ (asymmetric : (x y : A) → before x y ≡ true → before y x ≡ false)
      (transitive : (x y z : A)
        → before x y ≡ false
        → before y z ≡ false
        → before x z ≡ false) where
    Every-below :
        (x y : A) (ys : List A)
        → before y x ≡ false
        → Every (λ z. before z y ≡ false) ys
        → Every (λ z. before z x ≡ false) ys
    Every-below x y [] h k = tt
    Every-below x y (z ∷ ys) h k = (transitive z y x k.0 h, Every-below x y ys h k.1)

    Every-insert_sorted :
        (x y : A) (ys : List A)
        → before x y ≡ false
        → Every (λ z. before z y ≡ false) ys
        → Every (λ z. before z y ≡ false) (insert_sorted x ys)
    unfolding insert_sorted
    Every-insert_sorted x y [] h k = (h, tt)
    Every-insert_sorted x y (z ∷ ys) h k = ground (arith, Every-insert_sorted x y ys h k.1)

    insert_sorted-IsSorted : (x : A) (xs : List A) → IsSorted xs → IsSorted (insert_sorted x xs)
    unfolding insert_sorted
    insert_sorted-IsSorted x [] h = (tt, tt)
    insert_sorted-IsSorted x (y ∷ ys) h = ground (
      arith,
      insert_sorted-IsSorted x ys h.1,
      asymmetric y x,
      Every-insert_sorted x y ys,
      Every-below x y ys,
    )

    pub sort-IsSorted : (xs : List A) → IsSorted (sort xs)
    unfolding sort
    sort-IsSorted [] = tt
    sort-IsSorted (x ∷ xs) = insert_sorted-IsSorted x (sort xs) (sort-IsSorted xs)
