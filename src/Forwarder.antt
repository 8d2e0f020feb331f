-- ===== src/Forwarder.antt =====
-- lib/forwarder: forwarder.hpp and forwarder.cpp. `mu_` makes each access to the queue one step. The
-- requests to the peer go through `net::HttpClient`, and `state_of` reads JSON by boost: both are
-- parameters (`Remote`). `stopping` is what `push` reads in `stop_`; a client that `stop` cancels
-- fails its request.
pub mod Queue
pub mod Pushing
pub mod Delivery
use ot_sec_file_transfer.Base.{
  ℕ, zero, suc, ◌+◌, ◌-◌, ◌*◌, ◌%◌, ◌^◌, min, Bool, true, false, not, ◌&&◌, List, [], ◌∷◌, ◌++◌,
  Option, none, some, if◌then◌else◌, Text, codes, same, ltb, leb, ErrCode, Result, Void, ok, err,
  unavailable, throttled, internal, io, integrity, conflict, unknown_destination, fail_if, or_fail,
  is_ok,
}
use ot_sec_file_transfer.Storage.Interface.{FileStore}
use ot_sec_file_transfer.Transaction.Types.{Transaction, FileEntry}
use ot_sec_file_transfer.Transaction.Service.Core.{ReceiveRequest, Service, Server}
use ot_sec_file_transfer.Transaction.Service.Committing.{mark_delivered}
use ot_sec_file_transfer.Transaction.Service.Reading.{outgoing}

pub record ForwarderOptions : Type 0 where
  pub peers : List Text
  pub first_retry : ℕ
  pub max_retry : ℕ

pub record Pending : Type 0 where
  pub id : Text
  pub attempts : ℕ
  pub due : ℕ

abbrev pub is_transient : ErrCode → Bool
is_transient unavailable = true
is_transient throttled = true
is_transient internal = true
is_transient io = true
is_transient integrity = true
is_transient _ = false

unfoldable pub is_queued : Text → List Pending → Bool
is_queued id [] = false
is_queued id (p ∷ queue) = if same p.id id then true else is_queued id queue

unfoldable pub enqueue : Text → ℕ → List Pending → List Pending
unfolding is_queued
enqueue id now queue =
    if is_queued id queue
    then queue
    else queue ++ (record { id = id; attempts = 0; due = now } ∷ [])

-- `start`: every id of `list_outgoing`.
unfoldable pub enqueue_all : List Text → ℕ → List Pending → List Pending
enqueue_all [] now queue = queue
enqueue_all (id ∷ ids) now queue = enqueue_all ids now (enqueue id now queue)

-- The peer of a name; of a peer, only the name is told apart here.
unfoldable pub find_peer : Text → List Text → Option Text
find_peer name [] = none
find_peer name (p ∷ peers) = if same p name then some p else find_peer name peers

module _ (o : ForwarderOptions) where
  -- The loop of `backoff`, with the number of rounds that are left.
  unfoldable pub doubled : ℕ → ℕ → ℕ
  doubled zero wait = wait
  doubled (suc rounds) wait =
      let rest = doubled rounds (wait * 2) in if ltb wait o.max_retry then rest else wait

  unfoldable pub backoff : ℕ → ℕ
  unfolding doubled
  backoff attempts = min (doubled (attempts - 1) o.first_retry) o.max_retry

-- `min_element` by `due`: the first of the earliest, and the queue without it.
unfoldable pub take_next : Pending → List Pending → Pending × List Pending
take_next p [] = (p, [])
take_next p (q ∷ queue) =
    let rest = take_next q queue in
    if ltb rest.0.due p.due then (rest.0, p ∷ rest.1) else (p, q ∷ queue)

-- The end of a round of `run`: what becomes of an item after its push.
unfoldable pub requeue : ForwarderOptions → Void → Pending → ℕ → Bool → List Pending → List Pending
requeue o (ok _) item now stopping queue = queue
requeue o (err e) item now stopping queue =
    let attempts = (item.attempts + 1) % 2 ^ 32 in
    if is_transient e && not stopping
    then queue ++ (record item { attempts = attempts; due = now + backoff o attempts } ∷ [])
    else queue

-- What a push asks of the peer `name`, whose state is `R`; `D` is an open file.
pub record Remote (D R : Type 0) : Type 0 where
  pub create_client : Text → Void
  pub post_receive : Text → ReceiveRequest → R → Void × R
  pub get_body : Text → Text → R → Result Text × R
  pub upload : Text → Text → FileEntry → D → R → Void × R
  pub post_commit : Text → Text → R → Void × R
  pub state_of : Text → Result Text

abbrev pub receive_request : Transaction → ReceiveRequest
receive_request tx = record {
  id = tx.id;
  sender = tx.sender;
  target_user = tx.target_user;
  created_at = tx.created_at;
  expires_at = tx.expires_at;
  comment = tx.comment;
}

module _ {S U D R : Type 0} (o : Service S U D) (remote : Remote D R) where
  abbrev pub sent_then : Void × R → (R → Void × R) → Void × R
  sent_then (err e, r) rest = (err e, r)
  sent_then (ok _, r) rest = rest r

  -- The loop over the files.
  unfoldable pub send_files : Text → Text → List FileEntry → S → R → Void × R
  send_files peer id [] disk r = (ok tt, r)
  send_files peer id (file ∷ files) disk r = elim (o.store.open_read id file.path disk) [
    | err e ↦ (err e, r)
    | ok source ↦ sent_then (remote.upload peer id file source r) (send_files peer id files disk)
  ]

  abbrev pub state_there : Result Text → Result Text
  state_there (err e) = err e
  state_there (ok body) = remote.state_of body

  abbrev pub was_committed : Result Text → Result Bool
  was_committed (err e) = err e
  was_committed (ok state) = ok (not (same state (codes "open")))

  abbrev pub announced : Text → Text → Void × R → Result Bool × R
  announced peer id (ok _, r) = (ok false, r)
  announced peer id (err conflict, r) =
      let answer = remote.get_body peer id r in (was_committed (state_there answer.0), answer.1)
  announced peer id (err e, r) = (err e, r)

  -- What the peer says of the transaction: `committed_there`.
  unfoldable pub announce : Text → Transaction → R → Result Bool × R
  announce peer tx r = announced peer tx.id (remote.post_receive peer (receive_request tx) r)

  unfoldable pub hand_over : Text → Transaction → S → Result Bool × R → Void × R
  hand_over peer tx disk (err e, r) = (err e, r)
  hand_over peer tx disk (ok true, r) = (ok tt, r)
  hand_over peer tx disk (ok false, r) =
      sent_then (send_files peer tx.id tx.files disk r) (remote.post_commit peer tx.id)

  abbrev pub finish_push : Text → ℕ → Server S → Void × R → Void × (Server S × R)
  finish_push id now s (err e, r) = (err e, (s, r))
  finish_push id now s (ok _, r) =
      let marked = mark_delivered o id now s in (marked.0, (marked.1, r))

  abbrev pub peer_for : List Text → Bool → Transaction → Result Text
  peer_for peers stopping tx = elim (find_peer tx.target_server peers) [
    | none ↦ err unknown_destination
    | some peer ↦ elim (remote.create_client peer) [
      | err e ↦ err e
      | ok _ ↦ if stopping then err unavailable else ok peer
    ]
  ]

  unfoldable pub push : List Text → Bool → Text → ℕ → Server S → R → Void × (Server S × R)
  push peers stopping id now s r = elim (outgoing id s) [
    | err e ↦ (err e, (s, r))
    | ok tx ↦ elim (peer_for peers stopping tx) [
      | err e ↦ (err e, (s, r))
      | ok peer ↦ finish_push id now s (hand_over peer tx s.disk (announce peer tx r))
    ]
  ]
