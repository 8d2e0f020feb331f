-- ===== src/Storage/Uploads.antt =====
-- storage/impl/upload.cpp: `Upload`. The hasher holds what it was fed, and fails, if it does, when it
-- gives its digest. The error of a call on the file system is the code that upload.cpp makes of it.
pub mod Effects
use ot_sec_file_transfer.Base.{
  ℕ, ◌+◌, ◌%◌, ◌^◌, ◌≡◌, Bool, true, false, not, List, [], ◌∷◌, ◌++◌, Option, none, some,
  if◌then◌else◌, is_empty, length, Text, same, Result, ok, err, Void, internal, integrity, conflict,
  fail_if,
}
use ot_sec_file_transfer.Storage.Interface.{StoredFile}
use ot_sec_file_transfer.Storage.FileSystem.{FileSystem, FilePath}

pub record Upload : Type 0 where
  pub hashed : Text
  pub tmp_path : FilePath
  pub final_path : FilePath
  pub path : Text
  pub size : ℕ
  pub done : Bool

-- `CFD_TRY` in a function on the file system.
abbrev pub next : {F A B : Type 0} → Result A × F → (A → F → Result B × F) → Result B × F
next (ok a, f) rest = rest a f
next (err e, f) rest = (err e, f)

unfoldable pub parent_path : FilePath → FilePath
parent_path [] = []
parent_path (a ∷ []) = []
parent_path (a ∷ b ∷ p) = a ∷ parent_path (b ∷ p)

abbrev pub check_digest : Option (List ℕ) → List ℕ → Void
check_digest none digest = ok tt
check_digest (some expected) digest = fail_if (not (same expected digest)) integrity

module _ {F : Type 0} (fs : FileSystem F) (sha256 : Text → Result (List ℕ)) where
  unfoldable pub discard : Upload → F → F
  discard u f = (fs.remove u.tmp_path f).1

  abbrev pub written : Upload → Text → Void × F → Result Upload × F
  written u chunk (ok _, f) =
      (ok (record u { hashed = u.hashed ++ chunk; size = (u.size + length chunk) % 2 ^ 64 }), f)
  written u chunk (err e, f) = (err e, discard u f)

  unfoldable pub write : Upload → Text → F → Result Upload × F
  unfolding discard
  write u chunk f =
      if u.done
      then (err internal, f)
      else (if is_empty chunk then (ok u, f) else written u chunk (fs.fwrite u.tmp_path chunk f))

  unfoldable pub finish : Upload → Option (List ℕ) → F → Result StoredFile × F
  unfolding parent_path
  finish u expected f = next (fs.sync_and_close u.tmp_path f) λ _ f.
      next (sha256 u.hashed, f)
        λ digest f.
          next (check_digest expected digest, f)
            λ _ f. next (fs.create_directories (parent_path u.final_path) f) λ _ f.
              next (fail_if (fs.is_directory u.final_path f) conflict, f)
                λ _ f.
                  next (fs.rename u.tmp_path u.final_path f)
                    λ _ f. (ok (record { path = u.path; size = u.size; sha256 = digest }), f)

  abbrev pub discarded : Upload → Result StoredFile × F → Result StoredFile × F
  discarded u (ok stored, f) = (ok stored, f)
  discarded u (err e, f) = (err e, discard u f)

  unfoldable pub commit : Upload → Option (List ℕ) → F → Result StoredFile × F
  unfolding finish discard
  commit u expected f = if u.done then (err internal, f) else discarded u (finish u expected f)
