-- ===== src/Retention/Sweeping.antt =====
-- What a sweep removes, and what it leaves.
use ot_sec_file_transfer.Base.{
  ℕ, ◌+◌, ◌≤◌, ◌≡◌, inl, inr, refl, ap, arith, Bool, true, false, List, [], ◌∷◌, none, some, leb,
  Dict, if◌then◌else◌, Text, lookup, put, same, same_iff, lookup-put, lookup-erase, length, is_ok,
  Bool-cases,
}
use ot_sec_file_transfer.Transaction.Types.{Transaction, expired}
use ot_sec_file_transfer.Transaction.Repository.{find_if}
use ot_sec_file_transfer.Transaction.Service.Core.{Service, Server, BizEventType, system}
use ot_sec_file_transfer.Transaction.Service.Removing.{expire}
use ot_sec_file_transfer.Transaction.Service.Removing.Effects.{destroy_done, destroy_failed}
use ot_sec_file_transfer.Transaction.Service.Reading.{list_expired, ids, is_expired}
use ot_sec_file_transfer.Transaction.Service.History.{expires, step}
use ot_sec_file_transfer.Transaction.Service.History.Changes.{Inv}
use ot_sec_file_transfer.Transaction.Service.History.Steps.{step-Inv}
use ot_sec_file_transfer.Retention.{SweepResult, sweep, run_once}

-- An id is, or is not, one of the ids.
abbrev pub is_listed : Text → List Text → Bool
is_listed k [] = false
is_listed k (id ∷ ids) = if same id k then true else is_listed k ids

-- How many transactions of an index have come to their time of expiry.
abbrev pub count_expired : ℕ → Dict Transaction → ℕ
count_expired now [] = 0
count_expired now ((id, tx) ∷ m) =
    if leb tx.expires_at now then 1 + count_expired now m else count_expired now m

count_expired_lem :
    (now : ℕ) (m : Dict Transaction)
    → length (ids (find_if (λ tx. is_expired tx.expires_at now) m)) ≡ count_expired now m
unfolding ids find_if is_expired
count_expired_lem now [] = refl
count_expired_lem now ((id, tx) ∷ m) = ground (arith, count_expired_lem now m)

lookup-is_listed :
    (now : ℕ) (k : Text) (tx : Transaction) (m : Dict Transaction)
    → lookup k m ≡ some tx
    → tx.expires_at ≤ now
    → tx.id ≡ k
    → is_listed k (ids (find_if (λ tx. is_expired tx.expires_at now) m)) ≡ true
unfolding lookup ids find_if is_expired
lookup-is_listed now k tx [] h e i = cc
lookup-is_listed now k tx ((id, other) ∷ m) h e i =
    ground (arith, lookup-is_listed now k tx m, same_iff id k, same_iff other.id k)

module _ {S U D : Type 0} (o : Service S U D) where
  expire-Inv : (id : Text) (s : Server S) → Inv s.index → Inv (expire o id s).1.index
  expire-Inv id s v = unfold step in step-Inv o (expires id) s v

  expire_done :
      (id k : Text) (s : Server S)
      → Inv s.index
      → is_ok (expire o id s).0 ≡ true
      → lookup k (expire o id s).1.index ≡ (if same id k then none else lookup k s.index)
  unfolding expire
  expire_done id k s v h =
      let (tx, found, event, parts) = destroy_done o id BizEventType.expired system s h in
      ground (
        arith,
        (v id tx found).0,
        lookup-erase id k s.index,
        lookup-erase id k (put tx.id (record tx { state = expired }) s.index),
        lookup-put tx.id k (record tx { state = expired }) s.index,
        same_iff id k,
      )

  expire_failed :
      (id k : Text) (s : Server S)
      → Inv s.index
      → is_ok (expire o id s).0 ≡ false
      → same id k ≡ false
      → lookup k (expire o id s).1.index ≡ lookup k s.index
  unfolding expire
  expire_failed id k s v h d = elim ((destroy_failed o id BizEventType.expired system s h).1) [
    | inl e ↦ ap (lookup k) e
    | inr (tx, found, live, e) ↦ ground (
      arith,
      (v id tx found).0,
      lookup-put tx.id k (record tx { state = expired }) s.index,
      same_iff id k,
    )
  ]

  -- A sweep tries every id once.
  sweep-count :
      (ids : List Text) (result : SweepResult) (s : Server S)
      → (sweep o ids result s).0.expired + (sweep o ids result s).0.failed
        ≡ result.expired + result.failed + length ids
  unfolding sweep
  sweep-count [] result s = omega arith
  sweep-count (id ∷ ids) result s = elim (Bool-cases (is_ok (expire o id s).0)) [
    | inl h ↦
        ground (
          arith,
          sweep-count ids (record result { expired = result.expired + 1 }) (expire o id s).1,
        )
    | inr h ↦
        ground
          (arith, sweep-count ids (record result { failed = result.failed + 1 }) (expire o id s).1)
  ]

  -- A sweep leaves every transaction that it was not given as it was.
  sweep-kept :
      (ids : List Text) (result : SweepResult) (s : Server S) (k : Text)
      → Inv s.index
      → is_listed k ids ≡ false
      → lookup k (sweep o ids result s).1.index ≡ lookup k s.index
  unfolding sweep
  sweep-kept [] result s k v h = refl
  sweep-kept (id ∷ ids) result s k v h = elim (Bool-cases (is_ok (expire o id s).0)) [
    | inl d ↦ ground (
      arith,
      expire_done id k s v d,
      sweep-kept ids (record result { expired = result.expired + 1 }) (expire o id s).1 k
          (expire-Inv id s v),
    )
    | inr d ↦ ground (
      arith,
      expire_failed id k s v d,
      sweep-kept ids (record result { failed = result.failed + 1 }) (expire o id s).1 k
          (expire-Inv id s v),
    )
  ]

  sweep-failed :
      (ids : List Text) (result : SweepResult) (s : Server S)
      → result.failed ≤ (sweep o ids result s).0.failed
  unfolding sweep
  sweep-failed [] result s = omega arith
  sweep-failed (id ∷ ids) result s = elim (Bool-cases (is_ok (expire o id s).0)) [
    | inl h ↦
        ground (
          arith,
          sweep-failed ids (record result { expired = result.expired + 1 }) (expire o id s).1,
        )
    | inr h ↦
        ground
          (arith, sweep-failed ids (record result { failed = result.failed + 1 }) (expire o id s).1)
  ]

  -- What is gone stays gone.
  sweep-none :
      (ids : List Text) (result : SweepResult) (s : Server S) (k : Text)
      → Inv s.index
      → lookup k s.index ≡ none
      → (sweep o ids result s).0.failed ≡ result.failed
      → lookup k (sweep o ids result s).1.index ≡ none
  unfolding sweep
  sweep-none [] result s k v h c = h
  sweep-none (id ∷ ids) result s k v h c = elim (Bool-cases (is_ok (expire o id s).0)) [
    | inl d ↦ ground (
      arith,
      expire_done id k s v d,
      sweep-none ids (record result { expired = result.expired + 1 }) (expire o id s).1 k
          (expire-Inv id s v),
    )
    | inr d ↦
        ground
          (arith, sweep-failed ids (record result { failed = result.failed + 1 }) (expire o id s).1)
  ]

  sweep-removed :
      (ids : List Text) (result : SweepResult) (s : Server S) (k : Text)
      → Inv s.index
      → is_listed k ids ≡ true
      → (sweep o ids result s).0.failed ≡ result.failed
      → lookup k (sweep o ids result s).1.index ≡ none
  unfolding sweep
  sweep-removed [] result s k v h c = cc
  sweep-removed (id ∷ ids) result s k v h c = elim (Bool-cases (is_ok (expire o id s).0)) [
    | inl d ↦ ground (
      arith,
      expire_done id k s v d,
      sweep-none ids (record result { expired = result.expired + 1 }) (expire o id s).1 k
          (expire-Inv id s v),
      sweep-removed ids (record result { expired = result.expired + 1 }) (expire o id s).1 k
          (expire-Inv id s v),
    )
    | inr d ↦
        ground
          (arith, sweep-failed ids (record result { failed = result.failed + 1 }) (expire o id s).1)
  ]

  -- From a well-formed index, a sweep in which no removal fails removes every transaction whose time
  -- of expiry has come, whatever its state, and counts the transactions of the index whose time has
  -- come.
  pub run_once-removed :
      (now : ℕ) (s : Server S) (k : Text) (tx : Transaction)
      → Inv s.index
      → (run_once o now s).0.failed ≡ 0
      → lookup k s.index ≡ some tx
      → tx.expires_at ≤ now
      → (lookup k (run_once o now s).1.index ≡ none)
        × ((run_once o now s).0.expired ≡ count_expired now s.index)
  unfolding run_once list_expired
  run_once-removed now s k tx v c found h =
      let start : SweepResult = record { expired = 0; failed = 0 } in
      let is_id : tx.id ≡ k = ground (arith, (v k tx found).0, same_iff tx.id k) in
      let listed = lookup-is_listed now k tx s.index found h is_id in
      (
        sweep-removed (list_expired now s) start s k v listed c,
        omega (arith, c, count_expired_lem now s.index, sweep-count (list_expired now s) start s),
      )

  -- From a well-formed index, a sweep leaves every transaction that is not listed as expired as it
  -- was, even where a removal fails.
  pub run_once-kept :
      (now : ℕ) (s : Server S) (k : Text)
      → Inv s.index
      → is_listed k (list_expired now s) ≡ false
      → lookup k (run_once o now s).1.index ≡ lookup k s.index
  unfolding run_once
  run_once-kept now s k v h =
      sweep-kept (list_expired now s) (record { expired = 0; failed = 0 }) s k v h
