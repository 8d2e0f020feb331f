-- ===== src/Tests/Forwarding.antt =====
-- A push to a peer that accepts everything, and the waits between attempts.
use ot_sec_file_transfer.Base.{
  ℕ, ◌+◌, ◌-◌, ◌*◌, ◌^◌, ◌≡◌, ◌⊎◌, refl, min, true, false, List, [], ◌∷◌, none, some, Text, codes,
  same, lookup, put, ok, is_ok,
}
use ot_sec_file_transfer.Storage.Interface.{StoredFile}
use ot_sec_file_transfer.Transaction.Types.{Transaction}
use ot_sec_file_transfer.Transaction.Service.Core.{Server}
use ot_sec_file_transfer.Transaction.Service.Access.{is_outgoing}
use ot_sec_file_transfer.Transaction.Service.Reading.{outgoing}
use ot_sec_file_transfer.Transaction.Service.Committing.{delivered_at_time}
use ot_sec_file_transfer.Transaction.Service.History.{creates, begins, finishes, commits, run}
use ot_sec_file_transfer.Forwarder.{
  ForwarderOptions, Remote, receive_request, push, find_peer, announce, send_files, hand_over,
  backoff,
}
use ot_sec_file_transfer.Forwarder.Pushing.{sent, IsKnown, push_done, push_failed}
use ot_sec_file_transfer.Forwarder.Queue.{backoff_lem}
use ot_sec_file_transfer.Tests.Memory.{Disk, service, empty, alice, to_bob}
use ot_sec_file_transfer.Tests.Service.{running, id, pending}

-- The peer counts the requests.
abbrev pub remote : Remote StoredFile ℕ
remote = record {
  create_client = λ peer. ok tt;
  post_receive = λ peer request r. (ok tt, r + 1);
  get_body = λ peer id r. (ok [], r + 1);
  upload = λ peer id file source r. (ok tt, r + 1);
  post_commit = λ peer id r. (ok tt, r + 1);
  state_of = λ body. ok body;
}

unfoldable pub waiting : Server Disk
unfolding running
waiting =
    run service
      (creates alice (record to_bob { target_server = codes "siteB" }) id 100
        ∷ begins alice id (codes "a")
        ∷ finishes pending none
        ∷ commits alice id 200
        ∷ [])
      empty

abbrev pub peers : List Text
peers = codes "siteB" ∷ []

abbrev every_five_seconds : ForwarderOptions
every_five_seconds = record { peers = peers; first_retry = 5000; max_retry = 600000 }

push_done_example :
    (tx : Transaction) × (peer : Text) × (lookup id waiting.index ≡ some tx)
    × (is_outgoing tx ≡ true)
    × (find_peer tx.target_server peers ≡ some peer)
    × (((state : Text) × IsKnown service remote peer tx 0 state
          × (same state (codes "open") ≡ false))
        ⊎ (((is_ok (remote.post_receive peer (receive_request tx) 0).0 ≡ true)
              ⊎ IsKnown service remote peer tx 0 (codes "open"))
            × (is_ok (sent service remote peer tx waiting.disk 0).0 ≡ true)
            × (is_ok
                  (remote.post_commit peer tx.id (sent service remote peer tx waiting.disk 0).1).0
                ≡ true)))
    × ((push service remote peers false id 300 waiting 0).1.0.index
        ≡ put tx.id (delivered_at_time service tx 300) waiting.index)
unfolding running push outgoing find_peer is_outgoing announce hand_over send_files waiting
push_done_example = push_done service remote peers id 300 waiting 0 refl

push_failed_example :
    ((push service remote peers true id 300 waiting 0).1.0.index ≡ waiting.index)
    × ((push service remote peers true id 300 waiting 0).1.0.log ≡ waiting.log)
unfolding running push outgoing find_peer is_outgoing waiting
push_failed_example = push_failed service remote peers true id 300 waiting 0 refl

fourth_backoff :
    backoff every_five_seconds 4
    ≡ min (every_five_seconds.first_retry * 2 ^ (4 - 1)) every_five_seconds.max_retry
fourth_backoff = backoff_lem every_five_seconds 4
