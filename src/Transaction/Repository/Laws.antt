-- ===== src/Transaction/Repository/Laws.antt =====
-- What each repository method does to the index: it follows the result that is returned.
use ot_sec_file_transfer.Base.{
  ◌≡◌, refl, some, arith, if◌then◌else◌, Text, lookup, put, erase, is_ok, conflict, err,
}
use ot_sec_file_transfer.Storage.Interface.{FileStore}
use ot_sec_file_transfer.Transaction.Types.{Transaction}
use ot_sec_file_transfer.Transaction.Repository.{Repo, Codec, insert, save, save_manifest, remove}

module _ {S U D : Type 0} (store : FileStore S U D) (codec : Codec) where
  pub insert-index :
      (tx : Transaction) (r : Repo S)
      → (insert store codec tx r).1.index
        ≡ (if is_ok (insert store codec tx r).0 then put tx.id tx r.index else r.index)
  unfolding insert
  insert-index tx r = ground arith

  pub insert_of_present :
      (tx old : Transaction) (r : Repo S)
      → lookup tx.id r.index ≡ some old
      → insert store codec tx r ≡ (err conflict, r)
  unfolding insert
  insert_of_present tx old r e = ground arith

  pub save-index :
      (tx : Transaction) (r : Repo S)
      → (save store codec tx r).1.index
        ≡ (if is_ok (save store codec tx r).0 then put tx.id tx r.index else r.index)
  unfolding save
  save-index tx r = ground arith

  pub save_manifest-index :
      (tx : Transaction) (r : Repo S) → (save_manifest store codec tx r).1.index ≡ r.index
  unfolding save_manifest
  save_manifest-index tx r = refl

  pub remove-index :
      (id : Text) (r : Repo S)
      → (remove store codec id r).1.index
        ≡ (if is_ok (remove store codec id r).0 then erase id r.index else r.index)
  unfolding remove
  remove-index id r = ground arith
