-- ===== src/Transaction/Service/Uploading.antt =====
-- service.cpp: uploads (`begin_upload`, `PendingUpload::finish`) and `remove_file`. Bytes arrive
-- between the two halves of an upload, when other operations may run.
pub mod Effects
use ot_sec_file_transfer.Base.{
  ℕ, ◌+◌, ◌*◌, ◌%◌, ◌^◌, ◌≡◌, refl, Bool, true, false, not, ◌&&◌, ◌||◌, List, [], ◌∷◌, Option, none,
  some, arith, ltb, leb, ◌==◌, if◌then◌else◌, is_empty, length, Text, same, precedes, Result, ok,
  err, Void, validation, forbidden, integrity, notfound, conflict, gone, fail_if, or_fail, erase,
  keep_if,
}
use ot_sec_file_transfer.Base
use ot_sec_file_transfer.Base.Int.{ℤ, pos, negsuc, ltb_ℤ}
use ot_sec_file_transfer.Base.Sort.{sort}
use ot_sec_file_transfer.Storage.Interface.{FileStore, StoredFile}
use ot_sec_file_transfer.Transaction.Types.{
  Transaction, FileEntry, open_, committed, delivered, expired, same_state, State, check_comment,
  total_bytes,
}
use ot_sec_file_transfer.Transaction.States.{check_transition, require_mutable, require_readable}
use ot_sec_file_transfer.Transaction.Files.{upsert_file, remove_entry, find_file}
use ot_sec_file_transfer.Transaction.Repository.{
  Repo, insert, save, save_manifest, remove, find, find_if,
}
use ot_sec_file_transfer.Transaction.Service.Core.{
  Caller, CreateRequest, ReceiveRequest, BizEventType, BizEvent, Service, Server, M, ◌>>=◌, ◌>>◌,
  resume, lift, in_repo, on_disk, read_disk, find_or_fail, record_event, lock_for, erase_lock,
  event_for, system,
}
use ot_sec_file_transfer.Transaction.Service.Access.{
  may_write, may_read, is_sender, is_target, is_outgoing, is_origin_peer,
}

pub record PendingUpload (U : Type 0) : Type 0 where
  pub id : Text
  pub caller : Caller
  pub upload : U

entry_of : StoredFile → FileEntry
entry_of stored = record { path = stored.path; size = stored.size; sha256 = stored.sha256 }

unfoldable pub file_added_event : Transaction → FileEntry → Caller → BizEvent
file_added_event tx entry caller =
    let ev = event_for BizEventType.file_added tx caller in
    record ev { file = some entry.path; size = some entry.size; sha256 = some entry.sha256 }

unfoldable pub file_removed_event : Transaction → Text → Caller → BizEvent
file_removed_event tx path caller =
    let ev = event_for BizEventType.file_removed tx caller in record ev { file = some path }

module _ {S U D : Type 0} (o : Service S U D) where
  unfoldable pub begin_upload : Caller → Text → Text → M S (PendingUpload U)
  begin_upload caller id path = do
    lock_for id
    tx ← find_or_fail id
    lift (fail_if (not (may_write caller tx)) forbidden)
    lift (require_mutable tx.state)
    upload ← on_disk (o.store.begin_upload id path)
    lift (ok (record { id = id; caller = caller; upload = upload }))

  unfoldable pub write : PendingUpload U → Text → M S (PendingUpload U)
  write p chunk = do
    upload ← on_disk (o.store.write_upload p.upload chunk)
    lift (ok (record p { upload = upload }))

  -- The upload that fails is dropped with its temporary file by its destructor.
  unfoldable pub finish : PendingUpload U → Option (List ℕ) → M S FileEntry
  unfolding entry_of file_added_event
  finish p expected = do
    lock_for p.id
    tx ← find_or_fail p.id
    lift (require_mutable tx.state)
    stored ← on_disk (o.store.commit_upload p.upload expected)
    let tx' = record tx { files = upsert_file tx.files (entry_of stored) }
    in_repo (save o.store o.codec tx')
    record_event (file_added_event tx' (entry_of stored) p.caller)
    lift (ok (entry_of stored))

  unfoldable pub remove_file : Caller → Text → Text → M S (Unit {0})
  unfolding file_removed_event
  remove_file caller id path = do
    lock_for id
    tx ← find_or_fail id
    lift (fail_if (not (may_write caller tx)) forbidden)
    lift (require_mutable tx.state)
    files ← lift (or_fail (remove_entry tx.files path) notfound)
    on_disk (o.store.remove_file id path)
    in_repo (save o.store o.codec (record tx { files = files }))
    record_event (file_removed_event (record tx { files = files }) path caller)
