-- ===== src/Transaction/Service/Committing/Effects.antt =====
-- What `commit` and `mark_delivered` do to the transactions, on success and on failure.
use ot_sec_file_transfer.Base.{
  ℕ, ◌≡◌, true, false, List, [], ◌∷◌, inl, inr, Every, same_iff, Result-cases, some, arith,
  if◌then◌else◌, Text, lookup, put, is_ok, ok,
}
use ot_sec_file_transfer.Transaction.Types.{FileEntry, Transaction, committed, delivered}
use ot_sec_file_transfer.Storage.Interface.{StoredFile}
use ot_sec_file_transfer.Transaction.States.{check_transition}
use ot_sec_file_transfer.Transaction.Repository.{save, save_manifest, find}
use ot_sec_file_transfer.Transaction.Service.Core.{Caller, Service, Server, lock_for}
use ot_sec_file_transfer.Transaction.Service.Access.{may_write}
use ot_sec_file_transfer.Transaction.Service.Committing.{
  commit, check_files, committed_at_time, committed_event, mark_delivered, delivered_at_time,
}

module _ {S U D : Type 0} (o : Service S U D) where
  -- A file on disk with the size and the digest of the entry.
  abbrev pub IsStored : Text → S → FileEntry → Type 0
  IsStored id disk entry =
      (file : StoredFile) × (o.store.hash_file id entry.path disk ≡ ok file)
      × (file.size ≡ entry.size)
      × (file.sha256 ≡ entry.sha256)

  check_files_sound :
      (id : Text) (files : List FileEntry) (disk : S)
      → check_files o id files disk ≡ ok tt
      → Every (IsStored id disk) files
  unfolding check_files
  check_files_sound id [] disk h = tt
  check_files_sound id (entry ∷ files) disk h =
      elim (Result-cases (o.store.hash_file id entry.path disk)) [
        | inl e ↦ ground arith
        | inr (file, e) ↦ (
          (file, e, ground arith, ground (arith, same_iff file.sha256 entry.sha256)),
          check_files_sound id files disk (ground arith),
        )
      ]

  -- A commit that fails leaves every transaction, the business log and the hand-over to the
  -- forwarder as they were.
  pub commit_failed :
      (caller : Caller) (id : Text) (now : ℕ) (s : Server S)
      → is_ok (commit o caller id now s).0 ≡ false
      → ((commit o caller id now s).1.index ≡ s.index)
        × ((commit o caller id now s).1.log ≡ s.log)
        × ((commit o caller id now s).1.handed ≡ s.handed)
  unfolding commit lock_for find save save_manifest
  commit_failed caller id now s = ground arith

  commit_passed :
      (caller : Caller) (id : Text) (now : ℕ) (s : Server S) (tx' : Transaction)
      → (commit o caller id now s).0 ≡ ok tx'
      → (tx : Transaction) × (lookup id s.index ≡ some tx)
        × (may_write caller tx ≡ true)
        × (check_transition tx.state committed ≡ ok tt)
        × (check_files o id tx.files s.disk ≡ ok tt)
        × (tx' ≡ committed_at_time o tx now)
        × ((commit o caller id now s).1.index ≡ put tx.id tx' s.index)
        × ((commit o caller id now s).1.log ≡ committed_event tx' caller ∷ s.log)
        × ((commit o caller id now s).1.handed
            ≡ (if o.has_commit_hook then tx' ∷ s.handed else s.handed))
  unfolding commit lock_for find save save_manifest
  commit_passed caller id now s tx' h = ground arith

  -- A commit that succeeds was of a transaction that the caller may write, whose state may become
  -- committed and whose files on disk are those that were uploaded; it changes the state and the
  -- time of the commit, logs it, and hands the transaction to the hook if there is one.
  pub commit_done :
      (caller : Caller) (id : Text) (now : ℕ) (s : Server S) (tx' : Transaction)
      → (commit o caller id now s).0 ≡ ok tx'
      → (tx : Transaction) × (lookup id s.index ≡ some tx)
        × (may_write caller tx ≡ true)
        × (check_transition tx.state committed ≡ ok tt)
        × Every (IsStored id s.disk) tx.files
        × (tx' ≡ committed_at_time o tx now)
        × ((commit o caller id now s).1.index ≡ put tx.id tx' s.index)
        × ((commit o caller id now s).1.log ≡ committed_event tx' caller ∷ s.log)
        × ((commit o caller id now s).1.handed
            ≡ (if o.has_commit_hook then tx' ∷ s.handed else s.handed))
  commit_done caller id now s tx' h =
      let (tx, found, allowed, may_commit, stored, shape, index, log, handed) =
        commit_passed caller id now s tx' h in
      (
        tx,
        found,
        allowed,
        may_commit,
        check_files_sound id tx.files s.disk stored,
        shape,
        index,
        log,
        handed,
      )

  pub mark_delivered_failed :
      (id : Text) (now : ℕ) (s : Server S)
      → is_ok (mark_delivered o id now s).0 ≡ false
      → ((mark_delivered o id now s).1.index ≡ s.index)
        × ((mark_delivered o id now s).1.log ≡ s.log)
  unfolding mark_delivered lock_for find save
  mark_delivered_failed id now s = ground arith

  pub mark_delivered_done :
      (id : Text) (now : ℕ) (s : Server S)
      → is_ok (mark_delivered o id now s).0 ≡ true
      → (tx : Transaction) × (lookup id s.index ≡ some tx)
        × (check_transition tx.state delivered ≡ ok tt)
        × ((mark_delivered o id now s).1.index ≡ put tx.id (delivered_at_time o tx now) s.index)
  unfolding mark_delivered lock_for find save
  mark_delivered_done id now s h = ground arith
