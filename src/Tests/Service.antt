-- ===== src/Tests/Service.antt =====
-- The service on the store in memory.
use ot_sec_file_transfer.Base.{
  ◌≤◌, ◌≡◌, refl, List, [], ◌∷◌, none, some, Text, codes, lookup, put, erase, same,
}
use ot_sec_file_transfer.Base.Int.{pos}
use ot_sec_file_transfer.Transaction.Types.{Transaction, committed, check_comment, total_bytes}
use ot_sec_file_transfer.Transaction.States.{can_transition, check_transition, require_mutable}
use ot_sec_file_transfer.Transaction.Files.{upsert_file, remove_entry}
use ot_sec_file_transfer.Transaction.Repository.{insert, save, save_manifest, remove, find}
use ot_sec_file_transfer.Transaction.Service.Core.{lock_for, erase_lock, event_for}
use ot_sec_file_transfer.Transaction.Service.Access.{may_write, is_sender, is_origin_peer}
use ot_sec_file_transfer.Transaction.Service.Sending.{create, expires_at}
use ot_sec_file_transfer.Transaction.Service.Uploading.{
  PendingUpload, begin_upload, finish, remove_file,
}
use ot_sec_file_transfer.Transaction.Service.Committing.{commit, check_files, mark_delivered}
use ot_sec_file_transfer.Transaction.Service.Removing.{expire, destroy, set_retention}
use ot_sec_file_transfer.Transaction.Service.History.{
  Call, creates, begins, finishes, commits, retains, step, run,
}
use ot_sec_file_transfer.Transaction.Service.History.Changes.{Inv}
use ot_sec_file_transfer.Transaction.Service.History.Steps.{run-Inv}
use ot_sec_file_transfer.Transaction.Service.History.Sealing.{Sealed, rank, run-Sealed}
use ot_sec_file_transfer.Tests.Memory.{Upload, service, empty, alice, root, to_bob}

-- Every that the runs below compute with.
unfoldable pub running : Unit {0}
unfolding run step create begin_upload finish remove_file commit mark_delivered expire destroy
    set_retention lock_for erase_lock find insert save save_manifest remove require_mutable
    check_transition can_transition check_files may_write is_sender is_origin_peer lookup put erase
    same upsert_file remove_entry check_comment expires_at event_for total_bytes
running = tt

abbrev pub id : Text
id = codes "t1"

abbrev pub pending : PendingUpload Upload
pending = record { id = id; caller = alice; upload = record { id = id; path = codes "a" } }

abbrev pub sending : List (Call Upload)
sending =
    creates alice to_bob id 100
    ∷ begins alice id (codes "a")
    ∷ finishes pending none
    ∷ commits alice id 200
    ∷ []

abbrev pub tx_committed : Transaction
tx_committed = record {
  id = id;
  sender = codes "alice";
  target_user = codes "bob";
  target_server = [];
  origin_server = [];
  comment = codes "hello";
  state = committed;
  created_at = 100;
  expires_at = 2592100;
  committed_at = some 200;
  delivered_at = none;
  files = record { path = codes "a"; size = 5; sha256 = 1 ∷ 2 ∷ [] } ∷ [];
}

sent : lookup id (run service sending empty).index ≡ some tx_committed
unfolding running
sent = refl

pub empty-Inv : Inv empty.index
unfolding lookup
empty-Inv k tx h = cc

run-Inv_example : Inv (run service sending empty).index
run-Inv_example = run-Inv service sending empty empty-Inv

-- A second upload, a second commit and a longer retention, after the commit.
abbrev pub later : List (Call Upload)
later = finishes pending none ∷ commits alice id 300 ∷ retains root id (pos 60) ∷ []

run-Sealed_example :
    Sealed tx_committed (record tx_committed { expires_at = 5184100 })
    × (rank tx_committed.state ≤ rank committed)
unfolding running
run-Sealed_example =
    run-Sealed service later (run service sending empty) id tx_committed
      (record tx_committed { expires_at = 5184100 }) run-Inv_example sent (λ e. cc)
      (
        (tx_committed, refl),
        ((tx_committed, refl), ((record tx_committed { expires_at = 5184100 }, refl), tt)),
      )
      refl
