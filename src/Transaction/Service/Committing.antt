-- ===== src/Transaction/Service/Committing.antt =====
-- service.cpp: `commit` and `mark_delivered`.
pub mod Effects
use ot_sec_file_transfer.Base.{
  ℕ, ◌+◌, ◌*◌, ◌%◌, ◌^◌, ◌≡◌, refl, Bool, true, false, not, ◌&&◌, ◌||◌, List, [], ◌∷◌, Option, none,
  some, arith, ltb, leb, ◌==◌, if◌then◌else◌, is_empty, length, Text, same, precedes, Result, ok,
  err, Void, validation, forbidden, integrity, notfound, conflict, gone, fail_if, or_fail, erase,
  keep_if,
}
use ot_sec_file_transfer.Base
use ot_sec_file_transfer.Base.Int.{ℤ, pos, negsuc, ltb_ℤ}
use ot_sec_file_transfer.Base.Sort.{sort}
use ot_sec_file_transfer.Storage.Interface.{FileStore, StoredFile}
use ot_sec_file_transfer.Transaction.Types.{
  Transaction, FileEntry, open_, committed, delivered, expired, same_state, State, check_comment,
  total_bytes,
}
use ot_sec_file_transfer.Transaction.States.{check_transition, require_mutable, require_readable}
use ot_sec_file_transfer.Transaction.Files.{upsert_file, remove_entry, find_file}
use ot_sec_file_transfer.Transaction.Repository.{
  Repo, insert, save, save_manifest, remove, find, find_if,
}
use ot_sec_file_transfer.Transaction.Service.Core.{
  Caller, CreateRequest, ReceiveRequest, BizEventType, BizEvent, Service, Server, M, ◌>>=◌, ◌>>◌,
  resume, lift, in_repo, on_disk, read_disk, find_or_fail, record_event, lock_for, erase_lock,
  event_for, system,
}
use ot_sec_file_transfer.Transaction.Service.Access.{
  may_write, may_read, is_sender, is_target, is_outgoing, is_origin_peer,
}

abbrev pub with_totals : BizEvent → Transaction → BizEvent
with_totals ev tx = record ev {
  file_count = some (length tx.files % 2 ^ 32);
  total_bytes = some (total_bytes tx);
}

unfoldable pub committed_event : Transaction → Caller → BizEvent
committed_event tx caller =
    let type = if is_origin_peer caller tx then BizEventType.received else BizEventType.committed in
    with_totals (event_for type tx caller) tx

module _ {S U D : Type 0} (o : Service S U D) where
  -- The loop of `commit` over the files: the bytes on disk must be those that were uploaded.
  unfoldable pub check_files : Text → List FileEntry → S → Void
  check_files id [] disk = ok tt
  check_files id (entry ∷ files) disk = Base.◌>>=◌ (o.store.hash_file id entry.path disk) λ actual.
      Base.◌>>=◌
        (fail_if (not (actual.size == entry.size) || not (same actual.sha256 entry.sha256))
          integrity)
        λ _. check_files id files disk

  abbrev pub committed_at_time : Transaction → ℕ → Transaction
  committed_at_time tx now = record tx { state = committed; committed_at = some now }

  -- The part of `commit` that holds the lock.
  unfoldable pub commit_locked : Caller → Text → ℕ → M S Transaction
  unfolding committed_event
  commit_locked caller id now = do
    lock_for id
    tx ← find_or_fail id
    lift (fail_if (not (may_write caller tx)) forbidden)
    lift (check_transition tx.state committed)
    read_disk (check_files id tx.files)
    in_repo (save_manifest o.store o.codec (committed_at_time tx now))
    in_repo (save o.store o.codec (committed_at_time tx now))
    record_event (committed_event (committed_at_time tx now) caller)
    lift (ok (committed_at_time tx now))

  unfoldable pub call_hook : Transaction → M S (Unit {0})
  call_hook tx s =
      (ok tt, record s { handed = if o.has_commit_hook then tx ∷ s.handed else s.handed })

  unfoldable pub commit : Caller → Text → ℕ → M S Transaction
  unfolding commit_locked call_hook
  commit caller id now = do tx ← commit_locked caller id now; call_hook tx; lift (ok tx)

  abbrev pub delivered_at_time : Transaction → ℕ → Transaction
  delivered_at_time tx now = record tx { state = delivered; delivered_at = some now }

  unfoldable pub mark_delivered : Text → ℕ → M S (Unit {0})
  mark_delivered id now = do
    lock_for id
    tx ← find_or_fail id
    lift (check_transition tx.state delivered)
    in_repo (save o.store o.codec (delivered_at_time tx now))
    record_event (
        with_totals (event_for BizEventType.forwarded (delivered_at_time tx now) system)
          (delivered_at_time tx now))
