-- ===== src/Tests/Reading.antt =====
-- The lists and downloads, the sweep, on the store in memory.
use ot_sec_file_transfer.Base.{
  ◌≡◌, ◌⊎◌, ◌↔◌, refl, arith, true, List, [], ◌∷◌, none, some, codes, lookup, ok,
}
use mathlib.Core.List.{Mem}
use ot_sec_file_transfer.Transaction.Types.{Transaction, FileEntry, committed, delivered}
use ot_sec_file_transfer.Transaction.Files.{find_file}
use ot_sec_file_transfer.Transaction.Repository.{find_if}
use ot_sec_file_transfer.Transaction.Service.Core.{Server}
use ot_sec_file_transfer.Transaction.Service.Access.{may_read}
use ot_sec_file_transfer.Transaction.Service.Reading.{
  open_download, list, list_expired, Box, ids, is_expired,
}
use ot_sec_file_transfer.Transaction.Service.Reading.Permissions.{open_download_iff}
use ot_sec_file_transfer.Transaction.Service.Reading.Ordering.{
  IsNewestFirst, IsShown, values, list-IsNewestFirst,
}
use ot_sec_file_transfer.Transaction.Service.History.{Call, creates, run}
use ot_sec_file_transfer.Transaction.Service.History.Changes.{Inv}
use ot_sec_file_transfer.Transaction.Service.History.Steps.{run-Inv}
use ot_sec_file_transfer.Retention.{run_once, sweep}
use ot_sec_file_transfer.Retention.Sweeping.{count_expired, run_once-removed, run_once-kept}
use ot_sec_file_transfer.Tests.Memory.{Disk, Upload, service, content, empty, alice, bob, to_bob}
use ot_sec_file_transfer.Tests.Service.{tx_committed, running, empty-Inv, id, sending}

abbrev calls : List (Call Upload)
calls = creates alice to_bob (codes "t2") 3000000 ∷ []

abbrev two : Server Disk
unfolding running
two = run service calls (run service sending empty)

two-Inv : Inv two.index
unfolding running
two-Inv =
    run-Inv service calls (run service sending empty) (run-Inv service sending empty empty-Inv)

open_download_iff_example :
    (open_download service bob id (codes "a") two ≡ ok (content (codes "a"))) ↔ (
      (tx : Transaction) × (entry : FileEntry) × (lookup id two.index ≡ some tx)
      × (may_read bob tx service.is_recipient ≡ true)
      × ((tx.state ≡ committed) ⊎ (tx.state ≡ delivered))
      × (find_file tx.files (codes "a") ≡ some entry)
      × (service.store.open_read id (codes "a") two.disk ≡ ok (content (codes "a"))))
unfolding running
open_download_iff_example = open_download_iff service bob id (codes "a") two (content (codes "a"))

list-IsNewestFirst_example :
    IsNewestFirst (list service alice Box.out two)
    × ((tx : Transaction)
        → Mem tx (list service alice Box.out two)
          ↔ (Mem tx (values two.index) × IsShown service alice Box.out tx))
unfolding running
list-IsNewestFirst_example = list-IsNewestFirst service alice Box.out two refl

run_once-removed_example :
    (lookup id (run_once service 3000000 two).1.index ≡ none)
    × ((run_once service 3000000 two).0.expired ≡ count_expired 3000000 two.index)
unfolding running run_once sweep list_expired ids is_expired find_if lookup
run_once-removed_example =
    run_once-removed service 3000000 two id tx_committed two-Inv refl refl (ground arith)

run_once-kept_example :
    lookup (codes "t2") (run_once service 3000000 two).1.index ≡ lookup (codes "t2") two.index
unfolding running run_once sweep list_expired ids is_expired find_if
run_once-kept_example = run_once-kept service 3000000 two (codes "t2") two-Inv refl
