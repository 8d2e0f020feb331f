-- ===== src/Forwarder/Delivery.antt =====
-- A push to a second server of this model: what `Remote` stands for, when the peer runs the same
-- code. A request reaches the service of the peer as the caller that its token names; what the client and the network
-- add is an error, after which a push stops.
use ot_sec_file_transfer.Base.{
  ℕ, ◌≡◌, inl, inr, refl, sym, ap, ◌∙◌, arith, Bool, true, false, List, [], ◌∷◌, Option, none, some,
  Text, lookup, put, lookup-put, same, same_iff, is_ok, ok, Void, err, Result, Result-cases, Every,
  precedes, precedes_irrefl,
}
use ot_sec_file_transfer.Storage.Interface.{FileStore, StoredFile}
use ot_sec_file_transfer.Transaction.Types.{Transaction, FileEntry, committed, to_string}
use ot_sec_file_transfer.Transaction.Files.{upsert_file}
use ot_sec_file_transfer.Transaction.Files.Order.{
  IsSorted, entry_of_path, entry_of_path-upsert_file, upsert_file-IsSorted,
}
use ot_sec_file_transfer.Transaction.Repository.{find}
use ot_sec_file_transfer.Transaction.Service.Core.{Caller, Service, Server, M, lock_for, ◌>>=◌}
use ot_sec_file_transfer.Transaction.Service.Sending.{receive, received_transaction}
use ot_sec_file_transfer.Transaction.Service.Sending.Effects.{receive_done, receive_failed}
use ot_sec_file_transfer.Transaction.Service.Uploading.{PendingUpload, begin_upload, write, finish}
use ot_sec_file_transfer.Transaction.Service.Uploading.Effects.{
  begin_upload_done, begin_upload-index, finish_done,
}
use ot_sec_file_transfer.Transaction.Service.Committing.{commit}
use ot_sec_file_transfer.Transaction.Service.Committing.Effects.{commit_done}
use ot_sec_file_transfer.Transaction.Service.Reading.{get}
use ot_sec_file_transfer.Forwarder.Pushing.{push-parts}
use ot_sec_file_transfer.Forwarder.{Remote, send_files, announce, hand_over, push, receive_request}

-- storage/storage.hpp: a committed upload is of its path, and of the digest that was expected.
pub record KeepsUploads {S U D : Type 0} (store : FileStore S U D) : Type 0 where
  pub path_of : U → Text
  pub path-begin :
      (id path : Text) (disk : S) (u : U)
      → (store.begin_upload id path disk).0 ≡ ok u
      → path_of u ≡ path
  pub path-write :
      (u u' : U) (chunk : Text) (disk : S)
      → (store.write_upload u chunk disk).0 ≡ ok u'
      → path_of u' ≡ path_of u
  pub path-commit :
      (u : U) (expected : Option (List ℕ)) (disk : S) (stored : StoredFile)
      → (store.commit_upload u expected disk).0 ≡ ok stored
      → stored.path ≡ path_of u
  pub sha256-commit :
      (u : U) (sha256 : List ℕ) (disk : S) (stored : StoredFile)
      → (store.commit_upload u (some sha256) disk).0 ≡ ok stored
      → stored.sha256 ≡ sha256

abbrev pub done : {A S : Type 0} → Result A × Server S → Void × Server S
done (ok a, s) = (ok tt, s)
done (err e, s) = (err e, s)

-- The peer at the time `now`; the forwarder is the caller `from` there, and `content` is what is read from an open
-- file.
module _ {S U D F : Type 0} (peer : Service S U D) (from : Text) (content : F → Text)
    (now : ℕ) where
  abbrev pub caller : Caller
  caller = record { name = from; is_peer = true; is_admin = false }

  unfoldable pub put_file : Text → FileEntry → F → M S FileEntry
  put_file id file source = do
    begun ← begin_upload peer caller id file.path
    pending ← write peer begun (content source)
    finish peer pending (some file.sha256)

  abbrev pub state_text : Result Transaction → Result Text
  state_text (ok tx) = ok (to_string tx.state)
  state_text (err e) = err e

  unfoldable pub server_remote : Remote F (Server S)
  server_remote = record {
    create_client = λ _. ok tt;
    post_receive = λ _ req s. done (receive peer caller req s);
    get_body = λ _ id s. (state_text (get peer caller id s), s);
    upload = λ _ id file source s. done (put_file id file source s);
    post_commit = λ _ id s. done (commit peer caller id now s);
    state_of = λ body. ok body;
  }

  module _ (k : KeepsUploads peer.store) where
    finish-entry :
        (p : PendingUpload U) (sha256 : List ℕ) (s : Server S) (entry : FileEntry)
        → (finish peer p (some sha256) s).0 ≡ ok entry
        → (entry.path ≡ k.path_of p.upload) × (entry.sha256 ≡ sha256)
    unfolding finish lock_for
    finish-entry p sha256 s entry h =
        elim (Result-cases (peer.store.commit_upload p.upload (some sha256) s.disk).0) [
          | inl e ↦ ground arith
          | inr (stored, e) ↦ ground (
            arith,
            k.path-commit p.upload (some sha256) s.disk stored e,
            k.sha256-commit p.upload sha256 s.disk stored e,
          )
        ]

    begin_upload-path :
        (id path : Text) (s : Server S) (p : PendingUpload U)
        → (begin_upload peer caller id path s).0 ≡ ok p
        → k.path_of p.upload ≡ path
    unfolding begin_upload lock_for
    begin_upload-path id path s p h =
        elim (Result-cases (peer.store.begin_upload id path s.disk).0) [
          | inl e ↦ ground arith
          | inr (u, e) ↦ ground (arith, k.path-begin id path s.disk u e)
        ]

    write_done :
        (p p' : PendingUpload U) (chunk : Text) (s : Server S)
        → (write peer p chunk s).0 ≡ ok p'
        → (p'.id ≡ p.id)
          × (k.path_of p'.upload ≡ k.path_of p.upload)
          × ((write peer p chunk s).1.index ≡ s.index)
    unfolding write
    write_done p p' chunk s h =
        elim (Result-cases (peer.store.write_upload p.upload chunk s.disk).0) [
          | inl e ↦ ground arith
          | inr (u, e) ↦ ground (arith, k.path-write p.upload u chunk s.disk e)
        ]

    -- A file that is put is in the file list of its transaction, by its path and its digest.
    put_file_done :
        (id : Text) (file : FileEntry) (source : F) (s : Server S)
        → is_ok (put_file id file source s).0 ≡ true
        → (tx : Transaction) × (entry : FileEntry) × (lookup id s.index ≡ some tx)
          × (entry.path ≡ file.path)
          × (entry.sha256 ≡ file.sha256)
          × ((put_file id file source s).1.index
              ≡ put tx.id (record tx { files = upsert_file tx.files entry }) s.index)
    unfolding put_file
    put_file_done id file source s h =
        let begun = begin_upload peer caller id file.path s in
        elim (Result-cases begun.0) [
          | inl e ↦ ground arith
          | inr (p, e) ↦
              let (_, _, _, _, same_id, _) = begin_upload_done peer caller id file.path s p e in
              let written = write peer p (content source) begun.1 in
              elim (Result-cases written.0) [
                | inl f ↦ ground arith
                | inr (p', f) ↦
                    elim (Result-cases (finish peer p' (some file.sha256) written.1).0) [
                      | inl g ↦ ground arith
                      | inr (entry, g) ↦
                          let (tx, found, _, index, _) =
                            finish_done peer p' (some file.sha256) written.1 entry g in
                          let (kept, path, same_index) =
                            write_done p p' (content source) begun.1 f in
                          let (path', sha256) = finish-entry p' file.sha256 written.1 entry g in
                          (
                            tx,
                            entry,
                            ground (arith, begin_upload-index peer caller id file.path s),
                            ground (arith, begin_upload-path id file.path s p e),
                            sha256,
                            ground (arith, begin_upload-index peer caller id file.path s),
                          )
                    ]
              ]
        ]

-- The file list has a file of this path and digest.
unfoldable pub has_copy : List FileEntry → FileEntry → Bool
has_copy there f = elim (entry_of_path there f.path) [
  | none ↦ false
  | some e ↦ same e.sha256 f.sha256
]

abbrev pub NoneOf : Text → List FileEntry → Type 0
NoneOf path files = Every (λ f. same f.path path ≡ false) files

Every-precedes-NoneOf :
    (path : Text) (files : List FileEntry)
    → Every (λ f. precedes path f.path ≡ true) files
    → NoneOf path files
Every-precedes-NoneOf path [] h = tt
Every-precedes-NoneOf path (f ∷ files) (h, hs) = (
  ground (arith, same_iff f.path path, precedes_irrefl path),
  Every-precedes-NoneOf path files hs,
)

module _ {S U D S' U' D' : Type 0} (o : Service S U D) (peer : Service S' U' D') (from : Text)
    (content : D → Text) (now : ℕ) (k : KeepsUploads peer.store) (name : Text) (id : Text)
    (disk : S) where
  abbrev remote : Remote D (Server S')
  remote = server_remote peer from content now

  send_files_step :
      (f : FileEntry) (files : List FileEntry) (r : Server S') (source : D)
      → (o.store.open_read id f.path disk) ≡ ok source
      → is_ok (send_files o remote name id (f ∷ files) disk r).0 ≡ true
      → (is_ok (put_file peer from content now id f source r).0 ≡ true)
        × (send_files o remote name id (f ∷ files) disk r
            ≡ send_files o remote name id files disk
                (put_file peer from content now id f source r).1)
  unfolding send_files server_remote
  send_files_step f files r source u h = ground arith

  -- The loop over the files, from a transaction `tx` of the peer.
  send_files_done :
      (files : List FileEntry) (r : Server S') (tx : Transaction)
      → IsSorted files
      → IsSorted tx.files
      → tx.id ≡ id
      → lookup id r.index ≡ some tx
      → is_ok (send_files o remote name id files disk r).0 ≡ true
      → (there : List FileEntry) × (lookup id (send_files o remote name id files disk r).1.index
          ≡ some (record tx { files = there }))
        × IsSorted there
        × Every (λ f. has_copy there f ≡ true) files
        × ((path : Text)
            → NoneOf path files
            → entry_of_path there path ≡ entry_of_path tx.files path)
  unfolding send_files has_copy
  send_files_done [] r tx fs ts i e h = (tx.files, e, ts, tt, λ path n. refl)
  send_files_done (f ∷ files) r tx (before, fs) ts i e h =
      elim (Result-cases (o.store.open_read id f.path disk)) [
        | inl u ↦ ground arith
        | inr (source, u) ↦
            let one = put_file peer from content now id f source r in
            let (tx', entry, found, path, sha256, index) =
              put_file_done peer from content now k id f source r
                (send_files_step f files r source u h).0 in
            let eq = (send_files_step f files r source u h).1 in
            let step = record tx { files = upsert_file tx.files entry } in
            let (there, after, sorted, copied, kept) =
              send_files_done files one.1 step fs (upsert_file-IsSorted tx.files entry ts) i
                (ground (arith, lookup-put tx'.id id step r.index, same_iff tx'.id id))
                (ap (λ x. is_ok x.0) (sym eq) ∙ h) in
            let at_path = kept f.path (Every-precedes-NoneOf f.path files before) in
            (
              there,
              ap (λ x. lookup id x.1.index) eq ∙ after,
              sorted,
              (
                ground (
                  arith,
                  at_path,
                  entry_of_path-upsert_file tx.files entry f.path ts,
                  same_iff entry.path f.path,
                  same_iff entry.sha256 f.sha256,
                ),
                copied,
              ),
              λ q n. ground (arith, kept q n.1, entry_of_path-upsert_file tx.files entry q ts, n.0),
            )
      ]

  announce_done :
      (tx : Transaction) (r : Server S') (said : Bool)
      → lookup tx.id r.index ≡ none
      → (announce o remote name tx r).0 ≡ ok said
      → (said ≡ false)
        × (lookup tx.id (announce o remote name tx r).1.index
            ≡ some (received_transaction peer (caller peer from content now) (receive_request tx)))
  unfolding announce server_remote get find
  announce_done tx r said n h =
      let c = caller peer from content now in
      elim (Result-cases (receive peer c (receive_request tx) r).0) [
        | inl e ↦ ground (arith, receive_failed peer c (receive_request tx) r e)
        | inr (got, e) ↦
            let (_, shape, _, index, _) = receive_done peer c (receive_request tx) r got e in
            (ground arith, ground (arith, lookup-put tx.id tx.id got r.index, same_iff tx.id tx.id))
      ]

  hand_over_done :
      (tx : Transaction) (r : Server S')
      → is_ok (hand_over o remote name tx disk (ok false, r)).0 ≡ true
      → (is_ok (send_files o remote name tx.id tx.files disk r).0 ≡ true)
        × (is_ok
              (commit peer
                (caller peer from content now)
                tx.id
                now
                (send_files o remote name tx.id tx.files disk r).1).0
            ≡ true)
        × ((hand_over o remote name tx disk (ok false, r)).1
            ≡ (commit peer
                (caller peer from content now)
                tx.id
                now
                (send_files o remote name tx.id tx.files disk r).1).1)
  unfolding hand_over server_remote
  hand_over_done tx r h = ground arith

module _ {S U D S' U' D' : Type 0} (o : Service S U D) (peer : Service S' U' D') (from : Text)
    (content : D → Text) (now : ℕ) (k : KeepsUploads peer.store) where
  -- The files and the commit, from the transaction that was announced.
  deliver :
      (name : Text) (disk : S) (tx : Transaction) (r : Server S') (got : Transaction)
      → IsSorted tx.files
      → got.id ≡ tx.id
      → IsSorted got.files
      → lookup tx.id r.index ≡ some got
      → is_ok (hand_over o (server_remote peer from content now) name tx disk (ok false, r)).0
        ≡ true
      → (there : List FileEntry) × (lookup tx.id
            (hand_over o (server_remote peer from content now) name tx disk (ok false, r)).1.index
          ≡ some (record got { files = there; state = committed; committed_at = some now }))
        × Every (λ f. has_copy there f ≡ true) tx.files
  deliver name disk tx r got fs i ts found h =
      let c = caller peer from content now in
      let (all_sent, was_committed, after) =
        hand_over_done o peer from content now k name tx.id disk tx r h in
      let there_now =
        (send_files o (server_remote peer from content now) name tx.id tx.files disk r).1 in
      let (there, here, sorted, copied, _) =
        send_files_done o peer from content now k name tx.id disk tx.files r got fs ts i found
          all_sent in
      elim (Result-cases (commit peer c tx.id now there_now).0) [
        | inl e ↦ ground (arith, was_committed)
        | inr (final, e) ↦
            let (before, at, _, _, _, shape, index, _, _) =
              commit_done peer c tx.id now there_now final e in
            (
              there,
              ground (
                arith,
                after,
                index,
                shape,
                at,
                here,
                lookup-put before.id tx.id final there_now.index,
                same_iff before.id tx.id,
              ),
              copied,
            )
      ]

  announced_there :
      (name : Text) (disk : S) (tx : Transaction) (r : Server S')
      → lookup tx.id r.index ≡ none
      → is_ok
          (hand_over o
            (server_remote peer from content now)
            name
            tx
            disk
            (announce o (server_remote peer from content now) name tx r)).0
        ≡ true
      → ((announce o (server_remote peer from content now) name tx r).0 ≡ ok false)
        × (lookup tx.id (announce o (server_remote peer from content now) name tx r).1.index
            ≡ some (received_transaction peer (caller peer from content now) (receive_request tx)))
  unfolding hand_over
  announced_there name disk tx r n h =
      elim (Result-cases (announce o (server_remote peer from content now) name tx r).0) [
        | inl e ↦ ground arith
        | inr (said, e) ↦
            let (unsaid, got) =
              announce_done o peer from content now k name tx.id disk tx r said n e in
            (ground arith, got)
      ]

  -- A push that succeeds to a server that does not have the transaction leaves it there under the
  -- same identifier: committed, from the same sender and to the same user, with the sending server
  -- as its origin, and with a file of the same path and digest for every file. The sender's
  -- transaction is stored under its own identifier with its files sorted by path, and the store of
  -- the peer keeps what is uploaded.
  pub push_delivers :
      (peers : List Text) (id : Text) (time : ℕ) (s : Server S) (r : Server S')
      → ((tx : Transaction) → lookup id s.index ≡ some tx → (tx.id ≡ id) × IsSorted tx.files)
      → lookup id r.index ≡ none
      → is_ok (push o (server_remote peer from content now) peers false id time s r).0 ≡ true
      → (tx : Transaction) × (copy : Transaction) × (lookup id s.index ≡ some tx)
        × (lookup id
              (push o (server_remote peer from content now) peers false id time s r).1.1.index
            ≡ some copy)
        × (copy.state ≡ committed)
        × (copy.sender ≡ tx.sender)
        × (copy.target_user ≡ tx.target_user)
        × (copy.origin_server ≡ from)
        × Every (λ f. has_copy copy.files f ≡ true) tx.files
  unfolding received_transaction
  push_delivers peers id time s r own fresh h =
      let remote = server_remote peer from content now in
      let (tx, name, found, _, _, handed, _, _, after) = push-parts o remote peers id time s r h in
      let (same_id, sorted) = own tx found in
      let (said, got) =
        announced_there name s.disk tx r (ap (λ i. lookup i r.index) same_id ∙ fresh) handed in
      let there = (announce o remote name tx r).1 in
      let eq : hand_over o remote name tx s.disk (announce o remote name tx r)
          ≡ hand_over o remote name tx s.disk (ok false, there) =
        ap (λ x. hand_over o remote name tx s.disk (x, there)) said in
      let received =
        received_transaction peer (caller peer from content now) (receive_request tx) in
      let (files, here, copied) =
        deliver name s.disk tx there received sorted refl tt got
          (ap (λ x. is_ok x.0) (sym eq) ∙ handed) in
      (
        tx,
        record received { files = files; state = committed; committed_at = some now },
        found,
        (ap (λ i. lookup i (push o remote peers false id time s r).1.1.index) (sym same_id)
            ∙ (ap (λ w. lookup tx.id w.index) (after ∙ ap (λ x. x.1) eq) ∙ here)),
        refl,
        refl,
        refl,
        refl,
        copied,
      )
