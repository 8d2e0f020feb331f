-- ===== src/Transaction/Service/Uploading/Effects.antt =====
-- What `begin_upload`, `finish` and `remove_file` do to the transactions, on success and on failure.
use ot_sec_file_transfer.Base.{
  ℕ, ◌≡◌, true, false, List, ◌∷◌, Option, some, arith, Text, lookup, put, is_ok, ok,
}
use ot_sec_file_transfer.Transaction.Types.{Transaction, FileEntry, open_}
use ot_sec_file_transfer.Transaction.States.{require_mutable}
use ot_sec_file_transfer.Transaction.Files.{upsert_file, remove_entry}
use ot_sec_file_transfer.Transaction.Repository.{save, find}
use ot_sec_file_transfer.Transaction.Service.Core.{Caller, Service, Server, lock_for}
use ot_sec_file_transfer.Transaction.Service.Access.{may_write}
use ot_sec_file_transfer.Transaction.Service.Uploading.{
  PendingUpload, begin_upload, finish, remove_file, file_added_event, file_removed_event,
}

module _ {S U D : Type 0} (o : Service S U D) where
  pub begin_upload-index :
      (caller : Caller) (id path : Text) (s : Server S)
      → (begin_upload o caller id path s).1.index ≡ s.index
  unfolding begin_upload lock_for find require_mutable
  begin_upload-index caller id path s = ground arith

  pub begin_upload_done :
      (caller : Caller) (id path : Text) (s : Server S) (p : PendingUpload U)
      → (begin_upload o caller id path s).0 ≡ ok p
      → (tx : Transaction) × (lookup id s.index ≡ some tx)
        × (tx.state ≡ open_)
        × (may_write caller tx ≡ true)
        × (p.id ≡ id)
        × (p.caller ≡ caller)
  unfolding begin_upload lock_for find require_mutable
  begin_upload_done caller id path s p h = ground arith

  pub finish_failed :
      (p : PendingUpload U) (expected : Option (List ℕ)) (s : Server S)
      → is_ok (finish o p expected s).0 ≡ false
      → ((finish o p expected s).1.index ≡ s.index) × ((finish o p expected s).1.log ≡ s.log)
  unfolding finish lock_for find require_mutable save
  finish_failed p expected s = ground arith

  -- An upload that finishes finds its transaction open, and only inserts or replaces its entry in
  -- the list of files, and logs it.
  pub finish_done :
      (p : PendingUpload U) (expected : Option (List ℕ)) (s : Server S) (entry : FileEntry)
      → (finish o p expected s).0 ≡ ok entry
      → (tx : Transaction) × (lookup p.id s.index ≡ some tx)
        × (tx.state ≡ open_)
        × ((finish o p expected s).1.index
            ≡ put tx.id (record tx { files = upsert_file tx.files entry }) s.index)
        × ((finish o p expected s).1.log
            ≡ file_added_event (record tx { files = upsert_file tx.files entry }) entry p.caller
              ∷ s.log)
  unfolding finish lock_for find require_mutable save
  finish_done p expected s entry h = ground arith

  pub remove_file_failed :
      (caller : Caller) (id path : Text) (s : Server S)
      → is_ok (remove_file o caller id path s).0 ≡ false
      → ((remove_file o caller id path s).1.index ≡ s.index)
        × ((remove_file o caller id path s).1.log ≡ s.log)
  unfolding remove_file lock_for find require_mutable save
  remove_file_failed caller id path s = ground arith

  -- A removal that succeeds was of a file listed in an open transaction that the caller may write;
  -- it takes the entry off the list and logs it.
  pub remove_file_done :
      (caller : Caller) (id path : Text) (s : Server S)
      → is_ok (remove_file o caller id path s).0 ≡ true
      → (tx : Transaction) × (files : List FileEntry) × (lookup id s.index ≡ some tx)
        × (tx.state ≡ open_)
        × (may_write caller tx ≡ true)
        × (remove_entry tx.files path ≡ some files)
        × ((remove_file o caller id path s).1.index
            ≡ put tx.id (record tx { files = files }) s.index)
        × ((remove_file o caller id path s).1.log
            ≡ file_removed_event (record tx { files = files }) path caller ∷ s.log)
  unfolding remove_file lock_for find require_mutable save
  remove_file_done caller id path s h = ground arith
