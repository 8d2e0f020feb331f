-- ===== src/Forwarder/Pushing.antt =====
-- When a transaction becomes delivered.
use ot_sec_file_transfer.Base.{
  ℕ, ◌≡◌, ◌⊎◌, inl, inr, arith, codes, same, same_iff, conflict, Result-cases, Bool, true, false,
  List, some, Text, lookup, put, is_ok, ok, Void, err, Result,
}
use ot_sec_file_transfer.Transaction.Types.{Transaction}
use ot_sec_file_transfer.Transaction.Repository.{find}
use ot_sec_file_transfer.Transaction.Service.Core.{Service, Server}
use ot_sec_file_transfer.Transaction.Service.Committing.{mark_delivered, delivered_at_time}
use ot_sec_file_transfer.Transaction.Service.Committing.Effects.{
  mark_delivered_failed, mark_delivered_done,
}
use ot_sec_file_transfer.Transaction.Service.Access.{is_outgoing}
use ot_sec_file_transfer.Transaction.Service.Reading.{outgoing}
use ot_sec_file_transfer.Forwarder.{
  Remote, receive_request, send_files, announce, hand_over, push, find_peer,
}

module _ {S U D R : Type 0} (o : Service S U D) (remote : Remote D R) where
  -- A push that fails changes no transaction and writes no business event, so that it can be tried
  -- again.
  pub push_failed :
      (peers : List Text) (stopping : Bool) (id : Text) (now : ℕ) (s : Server S) (r : R)
      → is_ok (push o remote peers stopping id now s r).0 ≡ false
      → ((push o remote peers stopping id now s r).1.0.index ≡ s.index)
        × ((push o remote peers stopping id now s r).1.0.log ≡ s.log)
  unfolding push
  push_failed peers stopping id now s r h = ground (arith, mark_delivered_failed o id now s)

  -- The files of a transaction, sent after it was announced.
  abbrev pub sent : Text → Transaction → S → R → Void × R
  sent peer tx disk r = send_files o remote peer tx.id tx.files disk (announce o remote peer tx r).1

  hand_over_done :
      (peer : Text) (tx : Transaction) (disk : S) (said : Result Bool) (r : R)
      → is_ok (hand_over o remote peer tx disk (said, r)).0 ≡ true
      → (said ≡ ok true)
        ⊎ ((said ≡ ok false)
            × (is_ok (send_files o remote peer tx.id tx.files disk r).0 ≡ true)
            × (is_ok
                  (remote.post_commit peer tx.id
                    (send_files o remote peer tx.id tx.files disk r).1).0
                ≡ true))
  unfolding hand_over
  hand_over_done peer tx disk (err e) r h = ground arith
  hand_over_done peer tx disk (ok true) r h = ground arith
  hand_over_done peer tx disk (ok false) r h = ground arith

  pub push-parts :
      (peers : List Text) (id : Text) (now : ℕ) (s : Server S) (r : R)
      → is_ok (push o remote peers false id now s r).0 ≡ true
      → (tx : Transaction) × (peer : Text) × (lookup id s.index ≡ some tx)
        × (is_outgoing tx ≡ true)
        × (find_peer tx.target_server peers ≡ some peer)
        × (is_ok (hand_over o remote peer tx s.disk (announce o remote peer tx r)).0 ≡ true)
        × (is_ok (mark_delivered o id now s).0 ≡ true)
        × ((push o remote peers false id now s r).1.0 ≡ (mark_delivered o id now s).1)
        × ((push o remote peers false id now s r).1.1
            ≡ (hand_over o remote peer tx s.disk (announce o remote peer tx r)).1)
  unfolding push outgoing find
  push-parts peers id now s r h = ground arith

  -- The peer refused the transaction as one that it knows, and then said that its state is `state`.
  abbrev pub IsKnown : Text → Transaction → R → Text → Type 0
  IsKnown peer tx r state =
      let asked = remote.post_receive peer (receive_request tx) r in
      let answer = remote.get_body peer tx.id asked.1 in
      (body : Text) × (asked.0 ≡ err conflict)
      × (answer.0 ≡ ok body)
      × (remote.state_of body ≡ ok state)

  announce-true :
      (peer : Text) (tx : Transaction) (r : R)
      → (announce o remote peer tx r).0 ≡ ok true
      → (state : Text) × IsKnown peer tx r state × (same state (codes "open") ≡ false)
  unfolding announce
  announce-true peer tx r h =
      let asked = remote.post_receive peer (receive_request tx) r in
      let answer = remote.get_body peer tx.id asked.1 in
      elim (Result-cases answer.0) [
        | inl e ↦ ground arith
        | inr (body, e) ↦ elim (Result-cases (remote.state_of body)) [
          | inl e' ↦ ground arith
          | inr (state, e') ↦ ((state, (body, ground arith, e, e'), ground arith))
        ]
      ]

  announce-false :
      (peer : Text) (tx : Transaction) (r : R)
      → (announce o remote peer tx r).0 ≡ ok false
      → (is_ok (remote.post_receive peer (receive_request tx) r).0 ≡ true)
        ⊎ IsKnown peer tx r (codes "open")
  unfolding announce
  announce-false peer tx r h =
      let asked = remote.post_receive peer (receive_request tx) r in
      let answer = remote.get_body peer tx.id asked.1 in
      elim (Result-cases answer.0) [
        | inl e ↦ ground arith
        | inr (body, e) ↦ elim (Result-cases (remote.state_of body)) [
          | inl e' ↦ ground arith
          | inr (state, e') ↦ ground (arith, same_iff state (codes "open"))
        ]
      ]

  -- A push that succeeds found the transaction waiting for a configured peer and marked it
  -- delivered. Either the peer refused it as known and said that its state is another than "open",
  -- or the peer accepted it, or refused it as known and said that it is "open", and then took every
  -- file and confirmed the commit.
  pub push_done :
      (peers : List Text) (id : Text) (now : ℕ) (s : Server S) (r : R)
      → is_ok (push o remote peers false id now s r).0 ≡ true
      → (tx : Transaction) × (peer : Text) × (lookup id s.index ≡ some tx)
        × (is_outgoing tx ≡ true)
        × (find_peer tx.target_server peers ≡ some peer)
        × (((state : Text) × IsKnown peer tx r state × (same state (codes "open") ≡ false))
            ⊎ (((is_ok (remote.post_receive peer (receive_request tx) r).0 ≡ true)
                  ⊎ IsKnown peer tx r (codes "open"))
                × (is_ok (sent peer tx s.disk r).0 ≡ true)
                × (is_ok (remote.post_commit peer tx.id (sent peer tx s.disk r).1).0 ≡ true)))
        × ((push o remote peers false id now s r).1.0.index
            ≡ put tx.id (delivered_at_time o tx now) s.index)
  push_done peers id now s r h =
      let (tx, peer, found, waits, known, handed, marked, after, _) =
        push-parts peers id now s r h in
      let (tx', found', allowed, index) = mark_delivered_done o id now s marked in
      (
        tx,
        peer,
        found,
        waits,
        known,
        elim (hand_over_done peer tx s.disk (announce o remote peer tx r).0
            (announce o remote peer tx r).1 handed) [
              | inl there ↦ inl (announce-true peer tx r there)
              | inr (told, took, confirmed) ↦ inr (announce-false peer tx r told, took, confirmed)
            ],
        ground arith,
      )
