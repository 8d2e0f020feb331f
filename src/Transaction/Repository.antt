-- ===== src/Transaction/Repository.antt =====
-- transaction/repository.cpp: the index of transactions over the file store. `mu_` makes each method
-- one step; the texts of meta.json and manifest.json are those of `Codec`.
pub mod Laws
pub mod Restart
use ot_sec_file_transfer.Base.{
  ◌≡◌, refl, Bool, true, false, List, [], ◌∷◌, Option, none, some, arith, if◌then◌else◌, Text, Dict,
  lookup, put, erase, same, not, Result, ok, err, Void, conflict, notfound, validation, fail_if,
  ◌>>=◌, ◌>>◌,
}
use ot_sec_file_transfer.Storage.Interface.{FileStore, meta, manifest}
use ot_sec_file_transfer.Transaction.Types.{Transaction}

pub record Repo (S : Type 0) : Type 0 where
  pub index : Dict Transaction
  pub disk : S

-- The encoders and the decoder of codec.hpp.
pub record Codec : Type 0 where
  pub encode_meta : Transaction → Text
  pub encode_manifest : Transaction → Text
  pub decode_meta : Text → Result Transaction

-- `unordered_map::emplace`: a key that is there keeps its value.
unfoldable pub emplace : Text → Transaction → Dict Transaction → Dict Transaction
emplace id tx m = elim (lookup id m) [ some _ ↦ m | none ↦ put id tx m ]

module _ {S U D : Type 0} (store : FileStore S U D) (codec : Codec) where
  -- The tail of `insert`, after meta.json was written or not.
  written_or_removed : Transaction → Repo S → Void × S → Void × Repo S
  written_or_removed tx r (ok _, disk) =
      (ok tt, record { index = put tx.id tx r.index; disk = disk })
  written_or_removed tx r (err e, disk) =
      (err e, record r { disk = (store.remove_transaction tx.id disk).1 })

  created_or_failed : Transaction → Repo S → Void × S → Void × Repo S
  unfolding written_or_removed
  created_or_failed tx r (ok _, disk) =
      written_or_removed tx r (store.write_document tx.id meta (codec.encode_meta tx) disk)
  created_or_failed tx r (err e, disk) = (err e, record r { disk = disk })

  unfoldable pub insert : Transaction → Repo S → Void × Repo S
  unfolding created_or_failed
  insert tx r = elim (lookup tx.id r.index) [
    | some _ ↦ (err conflict, r)
    | none ↦ created_or_failed tx r (store.create_transaction tx.id r.disk)
  ]

  saved_or_failed : Transaction → Repo S → Void × S → Void × Repo S
  saved_or_failed tx r (ok _, disk) = (ok tt, record { index = put tx.id tx r.index; disk = disk })
  saved_or_failed tx r (err e, disk) = (err e, record r { disk = disk })

  unfoldable pub save : Transaction → Repo S → Void × Repo S
  unfolding saved_or_failed
  save tx r = elim (lookup tx.id r.index) [
    | none ↦ (err notfound, r)
    | some _ ↦ saved_or_failed tx r (store.write_document tx.id meta (codec.encode_meta tx) r.disk)
  ]

  unfoldable pub save_manifest : Transaction → Repo S → Void × Repo S
  save_manifest tx r =
      let written = store.write_document tx.id manifest (codec.encode_manifest tx) r.disk in
      (written.0, record r { disk = written.1 })

  removed_or_failed : Text → Repo S → Void × S → Void × Repo S
  removed_or_failed id r (ok _, disk) = (ok tt, record { index = erase id r.index; disk = disk })
  removed_or_failed id r (err e, disk) = (err e, record r { disk = disk })

  unfoldable pub remove : Text → Repo S → Void × Repo S
  unfolding removed_or_failed
  remove id r = removed_or_failed id r (store.remove_transaction id r.disk)

  -- The loop of `load`.
  unfoldable pub load_all : List Text → S → Dict Transaction → Result (Dict Transaction)
  load_all [] disk loaded = ok loaded
  load_all (id ∷ ids) disk loaded = do
    json ← store.read_document id meta disk
    tx ← codec.decode_meta json
    fail_if (not (same tx.id id)) validation
    load_all ids disk (emplace id tx loaded)

  reloaded : Repo S → Result (Dict Transaction) → Void × Repo S
  reloaded r (err e) = (err e, r)
  reloaded r (ok loaded) = (ok tt, record r { index = loaded })

  unfoldable pub load : Repo S → Void × Repo S
  unfolding reloaded
  load r = reloaded r (do ids ← store.list_transactions r.disk; load_all ids r.disk [])

unfoldable pub find : {S : Type 0} → Text → Repo S → Option Transaction
find id r = lookup id r.index

-- `find_if`, in the order of the index.
unfoldable pub find_if : (Transaction → Bool) → Dict Transaction → List Transaction
find_if pred [] = []
find_if pred ((_, tx) ∷ m) = if pred tx then tx ∷ find_if pred m else find_if pred m
