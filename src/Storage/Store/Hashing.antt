-- ===== src/Storage/Store/Hashing.antt =====
-- An upload from `begin_upload` to `commit`, and the hash that is computed of its file afterwards.
use mathlib.Core.List.{append-nil, append_assoc}
use ot_sec_file_transfer.Base.{
  ℕ, ◌≡◌, ◌%◌, ◌^◌, refl, ap, arith, false, List, [], ◌∷◌, ◌++◌, Option, inl, inr, Result-cases,
  Text, codes, length, length-append, Result, ok,
}
use ot_sec_file_transfer.Api.Router.{split_on}
use ot_sec_file_transfer.Storage.Interface.{StoredFile}
use ot_sec_file_transfer.Storage.FileSystem.{FileSystem, FileSystemLaws, FilePath, is_above}
use ot_sec_file_transfer.Storage.Uploads.{Upload, next, parent_path, write, finish, commit}
use ot_sec_file_transfer.Storage.Uploads.Effects.{commit-read}
use ot_sec_file_transfer.Storage.Store.{
  Disk, on_files, tmp_path, file_path, begin_write, begin_upload, open_read, hash_file,
}
use ot_sec_file_transfer.Storage.Store.Documents.{tmp_path_other}

parent_path-append :
    (root p : FilePath) (a b c : Text)
    → parent_path (root ++ a ∷ b ∷ c ∷ p) ≡ root ++ a ∷ parent_path (b ∷ c ∷ p)
unfolding parent_path
parent_path-append [] p a b c = refl
parent_path-append (x ∷ []) p a b c = refl
parent_path-append (x ∷ y ∷ root) p a b c = ap (◌∷◌ x) (parent_path-append (y ∷ root) p a b c)

abbrev pub concat : List Text → Text
concat [] = []
concat (chunk ∷ chunks) = chunk ++ concat chunks

module _ (root : FilePath) where
  file_path_parent :
      (id path : Text) (n : ℕ)
      → is_above (tmp_path root id n) (parent_path (file_path root id path)) ≡ false
  file_path_parent id path n =
      let parts = split_on b'/' [] path in
      ground (
        arith,
        append_assoc root (codes "transactions" ∷ id ∷ codes "files" ∷ []) parts,
        parent_path-append root parts (codes "transactions") id (codes "files"),
        tmp_path_other root id n (parent_path (id ∷ codes "files" ∷ parts)),
      )

module _ {F : Type 0} (fs : FileSystem F) (sha256 : Text → Result (List ℕ)) (root : FilePath) where
  abbrev pub write_all : List Text → Upload → F → Result Upload × F
  write_all [] u f = (ok u, f)
  write_all (chunk ∷ chunks) u f = next (write fs sha256 u chunk f) (write_all chunks)

  unfoldable pub put_file :
      Text → Text → List Text → Option (List ℕ) → Disk F → Result StoredFile × Disk F
  put_file id path chunks expected d =
      next (begin_upload fs sha256 root id path d) λ u d.
        next (on_files (write_all chunks u) d) λ u d. on_files (commit fs sha256 u expected) d

module _ {F : Type 0} (fs : FileSystem F) (sha256 : Text → Result (List ℕ)) (root : FilePath)
    (laws : FileSystemLaws fs) where
  IsStreamed : Upload → Text → F → Type 0
  IsStreamed u text f =
      (laws.pending u.tmp_path f ≡ text) × (u.hashed ≡ text) × (u.size ≡ length text % 2 ^ 64)

  write-IsStreamed :
      (u u' : Upload) (text chunk : Text) (f : F)
      → IsStreamed u text f
      → (write fs sha256 u chunk f).0 ≡ ok u'
      → (u'.tmp_path ≡ u.tmp_path)
        × (u'.final_path ≡ u.final_path)
        × (u'.path ≡ u.path)
        × IsStreamed u' (text ++ chunk) (write fs sha256 u chunk f).1
  unfolding IsStreamed write
  write-IsStreamed u u' text [] f s h = ground (arith, s, h, append-nil text)
  write-IsStreamed u u' text (c ∷ chunk) f s h =
      ground
        (arith, s, h, laws.pending-fwrite u.tmp_path (c ∷ chunk) f, length-append text (c ∷ chunk))

  write_all-IsStreamed :
      (chunks : List Text) (u u' : Upload) (text : Text) (f : F)
      → IsStreamed u text f
      → (write_all fs sha256 root chunks u f).0 ≡ ok u'
      → (u'.tmp_path ≡ u.tmp_path)
        × (u'.final_path ≡ u.final_path)
        × (u'.path ≡ u.path)
        × IsStreamed u' (text ++ concat chunks) (write_all fs sha256 root chunks u f).1
  unfolding IsStreamed
  write_all-IsStreamed [] u u' text f s h = ground (arith, s, h, append-nil text)
  write_all-IsStreamed (chunk ∷ chunks) u u' text f s h =
      elim (Result-cases (write fs sha256 u chunk f).0) [
        | inl e ↦ ground (arith, h)
        | inr (v, e) ↦
            let w = write-IsStreamed u v text chunk f s e in
            let rest =
              write_all-IsStreamed chunks v u' (text ++ chunk) (write fs sha256 u chunk f).1 w.3 in
            ground (arith, h, w, rest, append_assoc text chunk (concat chunks))
      ]

  commit-hash_file :
      (u : Upload) (id text : Text) (expected : Option (List ℕ)) (f : F) (stored : StoredFile)
      → IsStreamed u text f
      → u.final_path ≡ file_path root id u.path
      → is_above u.tmp_path (parent_path u.final_path) ≡ false
      → (commit fs sha256 u expected f).0 ≡ ok stored
      → (hash_file fs sha256 root id u.path (commit fs sha256 u expected f).1 ≡ ok stored)
        × (fs.read_file (file_path root id u.path) (commit fs sha256 u expected f).1 ≡ ok text)
  unfolding IsStreamed commit finish hash_file open_read
  commit-hash_file u id text expected f stored s e a h =
      let f1 = (commit fs sha256 u expected f).1 in
      let p = file_path root id u.path in
      let c = commit-read fs sha256 laws u expected f a in
      ground (arith, s, e, h, c, laws.read-is_regular_file p text f1, laws.read-file_size p text f1)

  begin_upload-IsStreamed :
      (id path : Text) (d : Disk F) (u : Upload)
      → (begin_upload fs sha256 root id path d).0 ≡ ok u
      → (u.tmp_path ≡ tmp_path root id d.counter)
        × (u.final_path ≡ file_path root id path)
        × (u.path ≡ path)
        × IsStreamed u [] (begin_upload fs sha256 root id path d).1.files
  unfolding begin_upload begin_write IsStreamed
  begin_upload-IsStreamed id path d u h =
      ground (arith, h, laws.pending-open_write (tmp_path root id d.counter) d.files)

  -- On a file system with the effects that `FileSystemLaws` lists, an upload that is begun, written in
  -- chunks and committed leaves a file that holds the chunks one after the other, and `hash_file` gives
  -- for it the size and the digest that the upload gave.
  pub put_file-hash_file :
      (id path : Text) (chunks : List Text) (expected : Option (List ℕ)) (d : Disk F)
      (stored : StoredFile)
      → (put_file fs sha256 root id path chunks expected d).0 ≡ ok stored
      → (hash_file fs sha256 root id path
            (put_file fs sha256 root id path chunks expected d).1.files
          ≡ ok stored)
        × (fs.read_file
              (file_path root id path)
              (put_file fs sha256 root id path chunks expected d).1.files
            ≡ ok (concat chunks))
  unfolding put_file
  put_file-hash_file id path chunks expected d stored h =
      let begun = begin_upload fs sha256 root id path d in
      elim (Result-cases begun.0) [
        | inl e ↦ ground (arith, h)
        | inr (u, e) ↦
            let b = begin_upload-IsStreamed id path d u e in
            let wrote = write_all fs sha256 root chunks u begun.1.files in
            elim (Result-cases wrote.0) [
              | inl e' ↦ ground (arith, h, e)
              | inr (u', e') ↦
                  let w = write_all-IsStreamed chunks u u' [] begun.1.files b.3 e' in
                  ground (
                    arith,
                    h,
                    e,
                    b.0,
                    b.1,
                    b.2,
                    w.0,
                    w.1,
                    w.2,
                    file_path_parent root id path d.counter,
                    commit-hash_file u' id (concat chunks) expected wrote.1 stored w.3,
                  )
            ]
      ]
