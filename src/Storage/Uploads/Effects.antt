-- ===== src/Storage/Uploads/Effects.antt =====
-- What an upload does to the files: only its temporary file and, when it is committed, its final
-- path.
use mathlib.Core.List.{append-nil}
use ot_sec_file_transfer.Base.{
  ℕ, ◌≡◌, ◌⊎◌, arith, true, false, List, [], ◌∷◌, ◌++◌, Option, Text, is_ok, Result, ok,
}
use ot_sec_file_transfer.Storage.FileSystem.{FileSystem, FileSystemLaws, FilePath, is_above}
use ot_sec_file_transfer.Storage.Uploads.{Upload, parent_path, discard, write, finish, commit}

module _ {F : Type 0} (fs : FileSystem F) (sha256 : Text → Result (List ℕ))
    (laws : FileSystemLaws fs) where
  finish-read :
      (u : Upload) (expected : Option (List ℕ)) (f : F)
      → is_above u.tmp_path (parent_path u.final_path) ≡ false
      → is_ok (finish fs sha256 u expected f).0 ≡ true
      → fs.read_file u.final_path (finish fs sha256 u expected f).1 ≡ ok (laws.pending u.tmp_path f)
  unfolding finish
  finish-read u expected f a h =
      let f1 = (fs.sync_and_close u.tmp_path f).1 in
      let f2 = (fs.create_directories (parent_path u.final_path) f1).1 in
      ground (
        arith,
        a,
        laws.read-sync_and_close u.tmp_path f,
        laws.read-create_directories_other (parent_path u.final_path) u.tmp_path f1,
        laws.read-rename u.tmp_path u.final_path f2,
      )

  finish-read_other :
      (u : Upload) (expected : Option (List ℕ)) (q : FilePath) (f : F)
      → is_above u.tmp_path q ≡ false
      → is_above q (parent_path u.final_path) ≡ false
      → (is_ok (finish fs sha256 u expected f).0 ≡ false) ⊎ (is_above u.final_path q ≡ false)
      → fs.read_file q (finish fs sha256 u expected f).1 ≡ fs.read_file q f
  unfolding finish
  finish-read_other u expected q f a b c =
      let f1 = (fs.sync_and_close u.tmp_path f).1 in
      let f2 = (fs.create_directories (parent_path u.final_path) f1).1 in
      ground (
        arith,
        a,
        b,
        c,
        laws.read-sync_and_close_other u.tmp_path q f,
        laws.read-create_directories_other (parent_path u.final_path) q f1,
        laws.read-rename_failed u.tmp_path u.final_path q f2,
        laws.read-rename_other u.tmp_path u.final_path q f2,
      )

  pub commit-read :
      (u : Upload) (expected : Option (List ℕ)) (f : F)
      → is_above u.tmp_path (parent_path u.final_path) ≡ false
      → is_ok (commit fs sha256 u expected f).0 ≡ true
      → fs.read_file u.final_path (commit fs sha256 u expected f).1 ≡ ok (laws.pending u.tmp_path f)
  unfolding commit
  commit-read u expected f a h = ground (arith, finish-read u expected f a)

  pub commit-read_other :
      (u : Upload) (expected : Option (List ℕ)) (q : FilePath) (f : F)
      → is_above u.tmp_path q ≡ false
      → is_above q (parent_path u.final_path) ≡ false
      → (is_ok (commit fs sha256 u expected f).0 ≡ false) ⊎ (is_above u.final_path q ≡ false)
      → fs.read_file q (commit fs sha256 u expected f).1 ≡ fs.read_file q f
  unfolding commit discard
  commit-read_other u expected q f a b c = ground (
    arith,
    a,
    b,
    c,
    finish-read_other u expected q f a b,
    laws.read-remove_other u.tmp_path q (finish fs sha256 u expected f).1,
  )

  pub write-pending :
      (u u' : Upload) (chunk : Text) (f : F)
      → (write fs sha256 u chunk f).0 ≡ ok u'
      → (u'.tmp_path ≡ u.tmp_path)
        × (u'.final_path ≡ u.final_path)
        × (laws.pending u.tmp_path (write fs sha256 u chunk f).1
            ≡ laws.pending u.tmp_path f ++ chunk)
  unfolding write
  write-pending u u' [] f h = ground (arith, append-nil (laws.pending u.tmp_path f))
  write-pending u u' (c ∷ chunk) f h = ground (arith, laws.pending-fwrite u.tmp_path (c ∷ chunk) f)

  pub write-read_other :
      (u : Upload) (chunk : Text) (q : FilePath) (f : F)
      → is_above u.tmp_path q ≡ false
      → fs.read_file q (write fs sha256 u chunk f).1 ≡ fs.read_file q f
  unfolding write discard
  write-read_other u chunk q f a = ground (
    arith,
    laws.read-fwrite_other u.tmp_path q chunk f,
    laws.read-remove_other u.tmp_path q (fs.fwrite u.tmp_path chunk f).1,
  )
