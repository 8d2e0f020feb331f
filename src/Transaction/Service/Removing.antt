-- ===== src/Transaction/Service/Removing.antt =====
-- service.cpp: `destroy` with its callers `expire` and `admin_delete`, and `set_retention`.
pub mod Effects
use ot_sec_file_transfer.Base.{
  ℕ, ◌+◌, ◌*◌, ◌%◌, ◌^◌, ◌≡◌, refl, Bool, true, false, not, ◌&&◌, ◌||◌, List, [], ◌∷◌, Option, none,
  some, arith, ltb, leb, ◌==◌, if◌then◌else◌, is_empty, length, Text, same, precedes, Result, ok,
  err, Void, validation, forbidden, integrity, notfound, conflict, gone, fail_if, or_fail, erase,
  keep_if,
}
use ot_sec_file_transfer.Base
use ot_sec_file_transfer.Base.Int.{ℤ, pos, negsuc, ltb_ℤ}
use ot_sec_file_transfer.Base.Sort.{sort}
use ot_sec_file_transfer.Storage.Interface.{FileStore, StoredFile}
use ot_sec_file_transfer.Transaction.Types.{
  Transaction, FileEntry, open_, committed, delivered, expired, same_state, State, check_comment,
  total_bytes,
}
use ot_sec_file_transfer.Transaction.States.{check_transition, require_mutable, require_readable}
use ot_sec_file_transfer.Transaction.Files.{upsert_file, remove_entry, find_file}
use ot_sec_file_transfer.Transaction.Repository.{
  Repo, insert, save, save_manifest, remove, find, find_if,
}
use ot_sec_file_transfer.Transaction.Service.Core.{
  Caller, CreateRequest, ReceiveRequest, BizEventType, BizEvent, Service, Server, M, ◌>>=◌, ◌>>◌,
  resume, lift, in_repo, on_disk, read_disk, find_or_fail, record_event, lock_for, erase_lock,
  event_for, system,
}
use ot_sec_file_transfer.Transaction.Service.Access.{
  may_write, may_read, is_sender, is_target, is_outgoing, is_origin_peer,
}
use ot_sec_file_transfer.Transaction.Service.Sending.{expires_at}

module _ {S U D : Type 0} (o : Service S U D) where
  -- The `if` of `destroy`: a transaction that is already expired is not saved again.
  unfoldable pub set_expired : Transaction → M S Transaction
  set_expired tx = if same_state tx.state expired then lift (ok tx) else (do
    lift (check_transition tx.state expired)
    in_repo (save o.store o.codec (record tx { state = expired }))
    lift (ok (record tx { state = expired })))

  unfoldable pub destroy : Text → BizEventType → Caller → M S (Unit {0})
  unfolding set_expired
  destroy id type actor = do
    lock_for id
    found ← find_or_fail id
    tx ← set_expired found
    in_repo (remove o.store o.codec id)
    record_event (event_for type tx actor)
    erase_lock id

  unfoldable pub expire : Text → M S (Unit {0})
  expire id = destroy id BizEventType.expired system

  unfoldable pub admin_delete : Caller → Text → M S (Unit {0})
  admin_delete admin id = do
    lift (fail_if (not admin.is_admin) forbidden)
    destroy id BizEventType.admin_deleted admin

  abbrev pub retention_event : Transaction → Caller → ℤ → BizEvent
  retention_event tx admin days =
      let ev = event_for BizEventType.retention_changed tx admin in
      record ev { retention_days = some days }

  unfoldable pub set_retention : Caller → Text → ℤ → M S Transaction
  set_retention admin id days = do
    lift (fail_if (not admin.is_admin) forbidden)
    lift (fail_if (ltb_ℤ days (pos 1) || ltb_ℤ o.max_retention_days days) validation)
    lock_for id
    tx ← find_or_fail id
    lift (fail_if (same_state tx.state expired) gone)
    expires ← lift (expires_at tx.created_at days)
    in_repo (save o.store o.codec (record tx { expires_at = expires }))
    record_event (retention_event (record tx { expires_at = expires }) admin days)
    lift (ok (record tx { expires_at = expires }))
