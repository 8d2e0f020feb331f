-- ===== src/Tests/Operations.antt =====
-- The operations of the service, on the store in memory.
use ot_sec_file_transfer.Base.{
  ℕ, Every, ◌≡◌, ◌≢◌, ◌⊎◌, refl, true, false, [], ◌∷◌, none, some, if◌then◌else◌, codes, lookup,
  put, erase, precedes, ok,
}
use ot_sec_file_transfer.Base.Int.{pos, ltb_ℤ}
use ot_sec_file_transfer.Transaction.Types.{Transaction, FileEntry, open_, committed, expired}
use ot_sec_file_transfer.Transaction.States.{can_transition, check_transition}
use ot_sec_file_transfer.Transaction.Files.{upsert_file, find_file}
use ot_sec_file_transfer.Transaction.Files.Order.{IsSorted, entry_of_path, find_file-entry_of_path}
use ot_sec_file_transfer.Transaction.Service.Core.{Server, BizEventType, event_for, system}
use ot_sec_file_transfer.Transaction.Service.Access.{may_write}
use ot_sec_file_transfer.Transaction.Service.Sending.{expires_at}
use ot_sec_file_transfer.Transaction.Service.Uploading.{finish, file_added_event}
use ot_sec_file_transfer.Transaction.Service.Uploading.Effects.{finish_done}
use ot_sec_file_transfer.Transaction.Service.Committing.{commit, committed_at_time, committed_event}
use ot_sec_file_transfer.Transaction.Service.Committing.Effects.{
  IsStored, commit_done, commit_failed,
}
use ot_sec_file_transfer.Transaction.Service.Removing.{destroy, set_retention, retention_event}
use ot_sec_file_transfer.Transaction.Service.Removing.Effects.{
  destroy_done, destroy_failed, set_retention_done,
}
use ot_sec_file_transfer.Transaction.Service.History.{creates, begins, finishes, commits, run}
use ot_sec_file_transfer.Transaction.Service.History.Changes.{Inv}
use ot_sec_file_transfer.Transaction.Service.History.Steps.{run-Inv}
use ot_sec_file_transfer.Transaction.Service.History.Sealing.{step-can_transition}
use ot_sec_file_transfer.Tests.Memory.{Disk, service, empty, alice, root, to_bob}
use ot_sec_file_transfer.Tests.Service.{running, empty-Inv, id, pending, sending, tx_committed}

abbrev a : FileEntry
a = record { path = codes "a"; size = 5; sha256 = 1 ∷ 2 ∷ [] }

abbrev started : Server Disk
unfolding running
started = run service (creates alice to_bob id 100 ∷ begins alice id (codes "a") ∷ []) empty

abbrev uploaded : Server Disk
unfolding running
uploaded = run service (finishes pending none ∷ []) started

abbrev done : Server Disk
unfolding running
done = run service sending empty

finish_done_example :
    (tx : Transaction) × (lookup pending.id started.index ≡ some tx)
    × (tx.state ≡ open_)
    × ((finish service pending none started).1.index
        ≡ put tx.id (record tx { files = upsert_file tx.files a }) started.index)
    × ((finish service pending none started).1.log
        ≡ file_added_event (record tx { files = upsert_file tx.files a }) a pending.caller
          ∷ started.log)
unfolding running
finish_done_example = finish_done service pending none started a refl

commit_done_example :
    (tx : Transaction) × (lookup id uploaded.index ≡ some tx)
    × (may_write alice tx ≡ true)
    × (check_transition tx.state committed ≡ ok tt)
    × Every (IsStored service id uploaded.disk) tx.files
    × (tx_committed ≡ committed_at_time service tx 200)
    × ((commit service alice id 200 uploaded).1.index ≡ put tx.id tx_committed uploaded.index)
    × ((commit service alice id 200 uploaded).1.log
        ≡ committed_event tx_committed alice ∷ uploaded.log)
    × ((commit service alice id 200 uploaded).1.handed
        ≡ (if service.has_commit_hook then tx_committed ∷ uploaded.handed else uploaded.handed))
unfolding running
commit_done_example = commit_done service alice id 200 uploaded tx_committed refl

commit_failed_example :
    ((commit service alice id 300 done).1.index ≡ done.index)
    × ((commit service alice id 300 done).1.log ≡ done.log)
    × ((commit service alice id 300 done).1.handed ≡ done.handed)
unfolding running
commit_failed_example = commit_failed service alice id 300 done refl

destroy_done_example :
    (tx : Transaction) × (lookup id done.index ≡ some tx)
    × ((destroy service id BizEventType.expired system done).1.log
        ≡ event_for BizEventType.expired (record tx { state = expired }) system ∷ done.log)
    × (((tx.state ≡ expired)
          × ((destroy service id BizEventType.expired system done).1.index ≡ erase id done.index))
        ⊎ ((tx.state ≢ expired)
            × ((destroy service id BizEventType.expired system done).1.index
                ≡ erase id (put tx.id (record tx { state = expired }) done.index))))
unfolding running
destroy_done_example = destroy_done service id BizEventType.expired system done refl

destroy_failed_example :
    ((destroy service id BizEventType.expired system empty).1.log ≡ empty.log)
    × (((destroy service id BizEventType.expired system empty).1.index ≡ empty.index)
        ⊎ ((tx : Transaction) × (lookup id empty.index ≡ some tx)
            × (tx.state ≢ expired)
            × ((destroy service id BizEventType.expired system empty).1.index
                ≡ put tx.id (record tx { state = expired }) empty.index)))
unfolding running
destroy_failed_example = destroy_failed service id BizEventType.expired system empty refl

set_retention_done_example :
    (tx : Transaction) × (expires : ℕ) × (lookup id done.index ≡ some tx)
    × (root.is_admin ≡ true)
    × (ltb_ℤ service.max_retention_days (pos 60) ≡ false)
    × (tx.state ≢ expired)
    × (expires_at tx.created_at (pos 60) ≡ ok expires)
    × ((record tx_committed { expires_at = 5184100 }) ≡ record tx { expires_at = expires })
    × ((set_retention service root id (pos 60) done).1.index
        ≡ put tx.id (record tx_committed { expires_at = 5184100 }) done.index)
    × ((set_retention service root id (pos 60) done).1.log
        ≡ retention_event service (record tx_committed { expires_at = 5184100 }) root (pos 60)
          ∷ done.log)
unfolding running
set_retention_done_example =
    set_retention_done service root id (pos 60) done (record tx_committed { expires_at = 5184100 })
      refl

uploaded-Inv : Inv uploaded.index
unfolding running
uploaded-Inv =
    run-Inv service
      (creates alice to_bob id 100 ∷ begins alice id (codes "a") ∷ finishes pending none ∷ []) empty
      empty-Inv

abbrev tx_uploaded : Transaction
tx_uploaded = record tx_committed { state = open_; committed_at = none }

step-can_transition_example :
    (tx_committed.state ≡ tx_uploaded.state)
    ⊎ (can_transition tx_uploaded.state tx_committed.state ≡ true)
unfolding running
step-can_transition_example =
    step-can_transition service (commits alice id 200) uploaded id tx_uploaded tx_committed
      uploaded-Inv refl refl

abbrev b : FileEntry
b = record { path = codes "b"; size = 7; sha256 = 3 ∷ [] }

ab_IsSorted : IsSorted (a ∷ b ∷ [])
unfolding running precedes
ab_IsSorted = ((refl, tt), (tt, tt))

find_file-entry_of_path_example :
    find_file (a ∷ b ∷ []) (codes "b") ≡ entry_of_path (a ∷ b ∷ []) (codes "b")
find_file-entry_of_path_example = find_file-entry_of_path (a ∷ b ∷ []) (codes "b") ab_IsSorted
