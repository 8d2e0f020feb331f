-- ===== src/Tests/Delivery.antt =====
-- A push from one server in memory to another, whose store compares digests.
use mathlib.Core.Path.{subst}
use ot_sec_file_transfer.Base.{
  ◌≡◌, refl, true, false, Option, none, some, Text, codes, lookup, Every,
}
use ot_sec_file_transfer.Storage.Interface.{StoredFile}
use ot_sec_file_transfer.Transaction.Types.{Transaction, committed}
use ot_sec_file_transfer.Transaction.Files.Order.{IsSorted}
use ot_sec_file_transfer.Transaction.Service.Sending.{receive, receive_checks, received_transaction}
use ot_sec_file_transfer.Transaction.Service.Access.{is_outgoing}
use ot_sec_file_transfer.Transaction.Service.Uploading.{write}
use ot_sec_file_transfer.Transaction.Service.Reading.{outgoing}
use ot_sec_file_transfer.Forwarder.{push, find_peer, announce, send_files, hand_over}
use ot_sec_file_transfer.Forwarder.Delivery.{server_remote, put_file, has_copy, push_delivers}
use ot_sec_file_transfer.Tests.Memory.{service, empty, site_b, store-KeepsUploads}
use ot_sec_file_transfer.Tests.Service.{running, id}
use ot_sec_file_transfer.Tests.Forwarding.{waiting, peers}

abbrev file_text : StoredFile → Text
file_text f = f.path

delivering : Unit {0}
unfolding running waiting push outgoing find_peer is_outgoing announce hand_over send_files
    server_remote put_file write receive receive_checks received_transaction
delivering = tt

abbrev IsOwn : Option Transaction → Type 0
IsOwn none = Unit
IsOwn (some tx) = (tx.id ≡ id) × IsSorted tx.files

own : (tx : Transaction) → lookup id waiting.index ≡ some tx → (tx.id ≡ id) × IsSorted tx.files
unfolding delivering
own tx h = subst IsOwn h (refl, (tt, tt))

push_delivers_example :
    (tx : Transaction) × (copy : Transaction) × (lookup id waiting.index ≡ some tx)
    × (lookup id
          (push service
            (server_remote site_b (codes "siteA") file_text 400)
            peers
            false
            id
            300
            waiting
            empty).1.1.index
        ≡ some copy)
    × (copy.state ≡ committed)
    × (copy.sender ≡ tx.sender)
    × (copy.target_user ≡ tx.target_user)
    × (copy.origin_server ≡ codes "siteA")
    × Every (λ f. has_copy copy.files f ≡ true) tx.files
unfolding delivering
push_delivers_example =
    push_delivers service site_b (codes "siteA") file_text 400 store-KeepsUploads peers id 300
      waiting empty own refl refl
