-- ===== src/Storage/Store/Documents.antt =====
-- What `FileStore` on a file system does to the documents of the transactions.
use ot_sec_file_transfer.Base.{
  ℕ, ◌≡◌, refl, arith, ap, true, false, List, [], ◌∷◌, ◌++◌, none, Text, codes, inl, inr, ◌⊎◌,
  Result-cases, same_iff, same, is_ok, Result, ok,
}
use ot_sec_file_transfer.Storage.Interface.{Document, meta, manifest}
use ot_sec_file_transfer.Storage.FileSystem.{FileSystem, FileSystemLaws, FilePath, is_above}
use ot_sec_file_transfer.Storage.Uploads.{Upload, parent_path, write}
use ot_sec_file_transfer.Storage.Uploads.Effects.{
  commit-read, commit-read_other, write-pending, write-read_other,
}
use ot_sec_file_transfer.Storage.Store.{
  Disk, file_name, tmp_path, document_path, transaction_dir, files_dir, create_transaction,
  remove_transaction, begin_write, write_document, read_document, file_store,
}
use ot_sec_file_transfer.Transaction.Repository.Restart.{KeepsDocuments, same_document}

is_above-append : (r a b : FilePath) → is_above (r ++ a) (r ++ b) ≡ is_above a b
unfolding is_above
is_above-append [] a b = refl
is_above-append (x ∷ r) a b = ground (arith, same_iff x x, is_above-append r a b)

parent_path-append :
    (root : FilePath) (a b c : Text) → parent_path (root ++ a ∷ b ∷ c ∷ []) ≡ root ++ a ∷ b ∷ []
unfolding parent_path
parent_path-append [] a b c = refl
parent_path-append (x ∷ []) a b c = refl
parent_path-append (x ∷ y ∷ root) a b c = ap (◌∷◌ x) (parent_path-append (y ∷ root) a b c)

pub tmp_path_other :
    (root : FilePath) (id : Text) (n : ℕ) (p : FilePath)
    → is_above (tmp_path root id n) (root ++ codes "transactions" ∷ p) ≡ false
unfolding tmp_path is_above same
tmp_path_other root id n p = is_above-append root (codes "tmp" ∷ _) (codes "transactions" ∷ p)

tmp_path_parent :
    (root : FilePath) (id other : Text) (doc : Document) (n : ℕ)
    → is_above (tmp_path root id n) (parent_path (document_path root other doc)) ≡ false
tmp_path_parent root id other doc n =
    rw (parent_path-append root (codes "transactions") other (file_name doc))
      (tmp_path_other root id n (other ∷ []))

document_path_parent :
    (root : FilePath) (id other : Text) (doc kept : Document)
    → is_above (document_path root other kept) (parent_path (document_path root id doc)) ≡ false
unfolding is_above
document_path_parent root id other doc kept = ground (
  arith,
  parent_path-append root (codes "transactions") id (file_name doc),
  is_above-append root (codes "transactions" ∷ other ∷ file_name kept ∷ [])
      (codes "transactions" ∷ id ∷ []),
)

document_path_other :
    (root : FilePath) (id : Text) (doc kept : Document)
    → same_document doc kept ≡ false
    → is_above (document_path root id doc) (document_path root id kept) ≡ false
unfolding is_above same file_name same_document
document_path_other root id meta meta h = cc
document_path_other root id manifest manifest h = cc
document_path_other root id manifest meta h = ground (
  arith,
  same_iff id id,
  is_above-append root (codes "transactions" ∷ id ∷ file_name manifest ∷ [])
      (codes "transactions" ∷ id ∷ file_name meta ∷ []),
)
document_path_other root id meta manifest h = ground (
  arith,
  same_iff id id,
  is_above-append root (codes "transactions" ∷ id ∷ file_name meta ∷ [])
      (codes "transactions" ∷ id ∷ file_name manifest ∷ []),
)

under_other :
    (root p q : FilePath) (id other : Text)
    → same id other ≡ false
    → is_above (root ++ codes "transactions" ∷ id ∷ p) (root ++ codes "transactions" ∷ other ∷ q)
      ≡ false
unfolding is_above
under_other root p q id other h = ground (
  arith,
  h,
  is_above-append root (codes "transactions" ∷ id ∷ p) (codes "transactions" ∷ other ∷ q),
)

document_path_files :
    (root : FilePath) (id other : Text) (kept : Document)
    → (is_above (document_path root other kept) (transaction_dir root id) ≡ false)
      × (is_above (document_path root other kept) (files_dir root id) ≡ false)
unfolding is_above same file_name
document_path_files root id other meta = ground (
  arith,
  is_above-append root (codes "transactions" ∷ other ∷ file_name meta ∷ [])
      (codes "transactions" ∷ id ∷ []),
  is_above-append root (codes "transactions" ∷ other ∷ file_name meta ∷ [])
      (codes "transactions" ∷ id ∷ codes "files" ∷ []),
)
document_path_files root id other manifest = ground (
  arith,
  is_above-append root (codes "transactions" ∷ other ∷ file_name manifest ∷ [])
      (codes "transactions" ∷ id ∷ []),
  is_above-append root (codes "transactions" ∷ other ∷ file_name manifest ∷ [])
      (codes "transactions" ∷ id ∷ codes "files" ∷ []),
)

module _ {F : Type 0} (fs : FileSystem F) (sha256 : Text → Result (List ℕ)) (root : FilePath)
    (laws : FileSystemLaws fs) where
  begin_write-pending :
      (id : Text) (final : FilePath) (path : Text) (d : Disk F) (u : Upload)
      → (begin_write fs sha256 root id final path d).0 ≡ ok u
      → (u.tmp_path ≡ tmp_path root id d.counter)
        × (u.final_path ≡ final)
        × (laws.pending u.tmp_path (begin_write fs sha256 root id final path d).1.files ≡ [])
  unfolding begin_write
  begin_write-pending id final path d u h =
      ground (arith, laws.pending-open_write (tmp_path root id d.counter) d.files)

  begin_write-read_other :
      (id : Text) (final : FilePath) (path : Text) (d : Disk F) (q : FilePath)
      → is_above (tmp_path root id d.counter) q ≡ false
      → fs.read_file q (begin_write fs sha256 root id final path d).1.files ≡ fs.read_file q d.files
  unfolding begin_write
  begin_write-read_other id final path d q h =
      ground (arith, laws.read-open_write_other (tmp_path root id d.counter) q d.files)

  write_document-read :
      (id : Text) (doc : Document) (text : Text) (d : Disk F)
      → is_ok (write_document fs sha256 root id doc text d).0 ≡ true
      → read_document fs sha256 root id doc (write_document fs sha256 root id doc text d).1.files
        ≡ ok text
  unfolding write_document read_document
  write_document-read id doc text d h =
      let final = document_path root id doc in
      let begun = begin_write fs sha256 root id final (file_name doc) d in
      elim (Result-cases begun.0) [
        | inl e ↦ ground arith
        | inr (u, e) ↦
            let wrote = write fs sha256 u text begun.1.files in
            let b = begin_write-pending id final (file_name doc) d u e in
            elim (Result-cases wrote.0) [
              | inl e' ↦ ground arith
              | inr (u', e') ↦ ground (
                arith,
                b,
                write-pending fs sha256 laws u u' text begun.1.files e',
                commit-read fs sha256 laws u' none wrote.1,
                tmp_path_parent root id id doc d.counter,
                h,
              )
            ]
      ]

  write_document-read_kept :
      (id other : Text) (doc kept : Document) (text : Text) (d : Disk F)
      → (is_ok (write_document fs sha256 root id doc text d).0 ≡ false)
        ⊎ (is_above (document_path root id doc) (document_path root other kept) ≡ false)
      → read_document fs sha256 root other kept
          (write_document fs sha256 root id doc text d).1.files
        ≡ read_document fs sha256 root other kept d.files
  unfolding write_document read_document
  write_document-read_kept id other doc kept text d h =
      let final = document_path root id doc in
      let q = document_path root other kept in
      let begun = begin_write fs sha256 root id final (file_name doc) d in
      let away = tmp_path_other root id d.counter (other ∷ file_name kept ∷ []) in
      let b' = begin_write-read_other id final (file_name doc) d q away in
      elim (Result-cases begun.0) [
        | inl e ↦ ground (arith, b')
        | inr (u, e) ↦
            let wrote = write fs sha256 u text begun.1.files in
            let b = begin_write-pending id final (file_name doc) d u e in
            let w' = write-read_other fs sha256 laws u text q begun.1.files in
            elim (Result-cases wrote.0) [
              | inl e' ↦ ground (arith, b, b', w', away)
              | inr (u', e') ↦ ground (
                arith,
                b,
                b',
                w',
                away,
                write-pending fs sha256 laws u u' text begun.1.files e',
                commit-read_other fs sha256 laws u' none q wrote.1,
                document_path_parent root id other doc kept,
                h,
              )
            ]
      ]

  create_transaction-read :
      (id other : Text) (kept : Document) (f : F)
      → read_document fs sha256 root other kept (create_transaction fs sha256 root id f).1
        ≡ read_document fs sha256 root other kept f
  unfolding create_transaction read_document
  create_transaction-read id other kept f =
      let f1 = (fs.create_directory (transaction_dir root id) f).1 in
      ground (
        arith,
        document_path_files root id other kept,
        laws.read-create_directory_other (transaction_dir root id) (document_path root other kept)
            f,
        laws.read-create_directory_other (files_dir root id) (document_path root other kept) f1,
      )

  remove_transaction-read_other :
      (id other : Text) (kept : Document) (f : F)
      → same id other ≡ false
      → read_document fs sha256 root other kept (remove_transaction fs sha256 root id f).1
        ≡ read_document fs sha256 root other kept f
  unfolding remove_transaction read_document
  remove_transaction-read_other id other kept f h = ground (
    arith,
    under_other root [] (file_name kept ∷ []) id other,
    laws.read-remove_all_other (transaction_dir root id) (document_path root other kept) f,
    h,
  )

  -- On a file system with the effects that `FileSystemLaws` lists, the file store keeps the documents
  -- of the transactions: a document that was written is read back, and one whose writing fails is
  -- what it was. Writing a document leaves the other document of the transaction, and both documents
  -- of every other transaction; so do the creation and the removal of a transaction with both
  -- documents of every other one.
  pub file_store-KeepsDocuments : KeepsDocuments (file_store fs sha256 root)
  unfolding file_store
  file_store-KeepsDocuments = record {
    read-write = write_document-read;
    read-write_failed = λ id doc text d h. write_document-read_kept id id doc doc text d (inl h);
    read-write_document = λ id doc kept text d h.
        write_document-read_kept id id doc kept text d
          (inr (document_path_other root id doc kept h));
    read-write_other = λ id other doc kept text d h.
        write_document-read_kept id other doc kept text d
          (inr (under_other root (file_name doc ∷ []) (file_name kept ∷ []) id other h));
    read-create_other = λ id other kept d h. create_transaction-read id other kept d.files;
    read-remove_other = λ id other kept d h. remove_transaction-read_other id other kept d.files h;
  }
