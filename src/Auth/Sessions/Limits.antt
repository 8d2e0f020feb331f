-- ===== src/Auth/Sessions/Limits.antt =====
-- How many sessions a user has.
use ot_sec_file_transfer.Base.{
  ℕ, suc, ◌+◌, ◌≤◌, ◌<◌, ◌≡◌, ◌⊎◌, true, ◌&&◌, [], ◌∷◌, Option, none, some, arith, if◌then◌else◌,
  Text, Dict, lookup, put, erase, same_iff, inl, inr,
}
use ot_sec_file_transfer.Auth.Sessions.{
  Scope, SessionOptions, Session, drop_expired, belongs_to, older, scan_oldest, erase_found,
  drop_oldest_of, revoke_user,
}

unfoldable pub count_of : Text → Scope → Dict Session → ℕ
count_of name scope [] = 0
count_of name scope ((k, s) ∷ m) =
    let rest = count_of name scope m in if belongs_to name scope s then suc rest else rest

-- There is an entry of this key that belongs to the user and the scope.
abbrev Holds : Text → Scope → Text → Dict Session → Type 0
Holds name scope k [] = ⊥
Holds name scope k ((j, s) ∷ m) =
    ((j ≡ k) × (belongs_to name scope s ≡ true)) ⊎ Holds name scope k m

-- What the scan has found: nothing new, or an entry of the map.
abbrev Found :
    Text → Scope → Option (Text × Session) → Dict Session → Option (Text × Session) → Type 0
Found name scope old m none = (old ≡ none) × (count_of name scope m ≡ 0)
Found name scope old m (some (k, s)) = (old ≡ some (k, s)) ⊎ Holds name scope k m

module _ (name : Text) (scope : Scope) where
  pub scan_oldest-count :
      (count : ℕ) (old : Option (Text × Session)) (m : Dict Session)
      → (scan_oldest name scope count old m).0 ≡ count + count_of name scope m
  unfolding scan_oldest count_of
  scan_oldest-count count old [] = omega arith
  scan_oldest-count count old ((k, s) ∷ m) = ground (
    arith,
    scan_oldest-count (if belongs_to name scope s then count + 1 else count)
        (if belongs_to name scope s && older (count, s) old then some (k, s) else old) m,
  )

  pub count_of-erase-le :
      (k : Text) (m : Dict Session) → count_of name scope (erase k m) ≤ count_of name scope m
  unfolding count_of erase
  count_of-erase-le k [] = omega arith
  count_of-erase-le k ((j, s) ∷ m) = ground (arith, count_of-erase-le k m)

  count_of-erase-lt :
      (k : Text) (m : Dict Session)
      → Holds name scope k m
      → count_of name scope (erase k m) < count_of name scope m
  unfolding count_of erase
  count_of-erase-lt k [] h = absurd h
  count_of-erase-lt k ((j, s) ∷ m) (inl h) = ground (arith, same_iff j k, count_of-erase-le k m)
  count_of-erase-lt k ((j, s) ∷ m) (inr h) = ground (arith, count_of-erase-lt k m h)

  pub count_of-put-le :
      (k : Text) (s : Session) (m : Dict Session)
      → count_of name scope (put k s m)
        ≤ (if belongs_to name scope s then suc (count_of name scope m) else count_of name scope m)
  unfolding count_of put
  count_of-put-le k s [] = ground arith
  count_of-put-le k s ((j, t) ∷ m) = ground (arith, count_of-put-le k s m)

  pub count_of-drop_expired-le :
      (o : SessionOptions) (now : ℕ) (m : Dict Session)
      → count_of name scope (drop_expired o now m) ≤ count_of name scope m
  unfolding count_of drop_expired
  count_of-drop_expired-le o now [] = omega arith
  count_of-drop_expired-le o now ((j, s) ∷ m) = ground (arith, count_of-drop_expired-le o now m)

  scan_oldest-Found :
      (count : ℕ) (old : Option (Text × Session)) (m : Dict Session)
      → Found name scope old m (scan_oldest name scope count old m).1
  unfolding scan_oldest count_of
  scan_oldest-Found count none [] = ground arith
  scan_oldest-Found count (some (k, s)) [] = ground arith
  scan_oldest-Found count old ((k, s) ∷ m) = ground (
    arith,
    scan_oldest-Found (if belongs_to name scope s then count + 1 else count)
        (if belongs_to name scope s && older (count, s) old then some (k, s) else old) m,
  )

  pub count_of-put_same :
      (k : Text) (s t : Session) (m : Dict Session)
      → lookup k m ≡ some s
      → belongs_to name scope t ≡ belongs_to name scope s
      → count_of name scope (put k t m) ≡ count_of name scope m
  unfolding count_of put lookup
  count_of-put_same k s t [] h b = cc
  count_of-put_same k s t ((j, r) ∷ m) h b = ground (arith, count_of-put_same k s t m)

  pub count_of-revoke_user-le :
      (other : Text) (m : Dict Session)
      → count_of name scope (revoke_user other m).1 ≤ count_of name scope m
  unfolding count_of revoke_user
  count_of-revoke_user-le other [] = omega arith
  count_of-revoke_user-le other ((j, s) ∷ m) = ground (arith, count_of-revoke_user-le other m)

  count_of-erase_found-le :
      (found : Option (Text × Session)) (m : Dict Session)
      → count_of name scope (erase_found found m) ≤ count_of name scope m
  count_of-erase_found-le none m = omega arith
  count_of-erase_found-le (some (k, s)) m = count_of-erase-le k m

  count_of-erase_found-lt :
      (found : Option (Text × Session)) (m : Dict Session)
      → Found name scope none m found
      → 1 ≤ count_of name scope m
      → count_of name scope (erase_found found m) < count_of name scope m
  count_of-erase_found-lt none m (a, b) h = omega arith
  count_of-erase_found-lt (some (k, s)) m (inl a) h = cc
  count_of-erase_found-lt (some (k, s)) m (inr a) h = count_of-erase-lt k m a

  -- Room for one more session of the user.
  pub count_of-drop_oldest_of :
      (o : SessionOptions) (bound : ℕ) (m : Dict Session)
      → o.max_per_user ≤ bound
      → 1 ≤ bound
      → count_of name scope m ≤ bound
      → count_of name scope (drop_oldest_of o name scope m) < bound
  unfolding drop_oldest_of
  count_of-drop_oldest_of o bound m h1 h2 h3 = ground (
    arith,
    scan_oldest-count 0 none m,
    count_of-erase_found-le (scan_oldest name scope 0 none m).1 m,
    count_of-erase_found-lt (scan_oldest name scope 0 none m).1 m (scan_oldest-Found 0 none m),
  )

  pub count_of-drop_oldest_of-le :
      (o : SessionOptions) (other : Text) (place : Scope) (m : Dict Session)
      → count_of name scope (drop_oldest_of o other place m) ≤ count_of name scope m
  unfolding drop_oldest_of
  count_of-drop_oldest_of-le o other place m =
      ground (arith, count_of-erase_found-le (scan_oldest other place 0 none m).1 m)
