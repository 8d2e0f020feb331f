-- ===== src/Storage/FileSystem.antt =====
-- What lib/storage calls of std::filesystem and <cstdio>, which are not part of the repository: each
-- call with its result and the file system after it, and the documented effects that the properties
-- rely on. A path is the list of its parts, without dots and
-- symbolic links; a stream is named by the path that it was opened with.
use ot_sec_file_transfer.Base.{
  ℕ, ◌≡◌, Bool, true, false, ◌&&◌, List, [], ◌∷◌, ◌++◌, Text, same, length, Result, ok, Void, is_ok,
  length,
}

abbrev pub FilePath : Type 0
FilePath = List Text

-- `p` is `q` or a folder above it.
unfoldable pub is_above : FilePath → FilePath → Bool
is_above [] q = true
is_above (a ∷ p) [] = false
is_above (a ∷ p) (b ∷ q) = same a b && is_above p q

pub record FileSystem (F : Type 0) : Type 0 where
  pub create_directory : FilePath → F → Result Bool × F
  pub create_directories : FilePath → F → Void × F
  pub remove : FilePath → F → Void × F
  pub remove_all : FilePath → F → Result ℕ × F
  pub rename : FilePath → FilePath → F → Void × F
  pub is_directory : FilePath → F → Bool
  pub is_regular_file : FilePath → F → Bool
  pub is_empty_directory : FilePath → F → Result Bool
  pub file_size : FilePath → F → Result ℕ
  pub list_directories : FilePath → F → Result (List Text)
  -- `fopen` for writing, `fwrite`, and `fflush`, `fsync` and `fclose` together.
  pub open_write : FilePath → F → Void × F
  pub fwrite : FilePath → Text → F → Void × F
  pub sync_and_close : FilePath → F → Void × F
  -- `fopen` for reading and `fread` to the end.
  pub read_file : FilePath → F → Result Text

-- `pending p` is what the stream that is open on `p` was given; it is in the file once it is closed.
pub record FileSystemLaws {F : Type 0} (fs : FileSystem F) : Type 0 where
  pub pending : FilePath → F → Text
  pub pending-open_write :
      (p : FilePath) (f : F)
      → is_ok (fs.open_write p f).0 ≡ true
      → pending p (fs.open_write p f).1 ≡ []
  pub pending-fwrite :
      (p : FilePath) (text : Text) (f : F)
      → is_ok (fs.fwrite p text f).0 ≡ true
      → pending p (fs.fwrite p text f).1 ≡ pending p f ++ text
  pub read-sync_and_close :
      (p : FilePath) (f : F)
      → is_ok (fs.sync_and_close p f).0 ≡ true
      → fs.read_file p (fs.sync_and_close p f).1 ≡ ok (pending p f)
  pub read-rename :
      (p q : FilePath) (f : F)
      → is_ok (fs.rename p q f).0 ≡ true
      → fs.read_file q (fs.rename p q f).1 ≡ fs.read_file p f
  pub read-rename_failed :
      (p q r : FilePath) (f : F)
      → is_ok (fs.rename p q f).0 ≡ false
      → fs.read_file r (fs.rename p q f).1 ≡ fs.read_file r f
  pub read-rename_other :
      (p q r : FilePath) (f : F)
      → is_above p r ≡ false
      → is_above q r ≡ false
      → fs.read_file r (fs.rename p q f).1 ≡ fs.read_file r f
  pub read-open_write_other :
      (p q : FilePath) (f : F)
      → is_above p q ≡ false
      → fs.read_file q (fs.open_write p f).1 ≡ fs.read_file q f
  pub read-sync_and_close_other :
      (p q : FilePath) (f : F)
      → is_above p q ≡ false
      → fs.read_file q (fs.sync_and_close p f).1 ≡ fs.read_file q f
  pub read-remove_other :
      (p q : FilePath) (f : F)
      → is_above p q ≡ false
      → fs.read_file q (fs.remove p f).1 ≡ fs.read_file q f
  pub read-remove_all_other :
      (p q : FilePath) (f : F)
      → is_above p q ≡ false
      → fs.read_file q (fs.remove_all p f).1 ≡ fs.read_file q f
  pub read-fwrite_other :
      (p q : FilePath) (text : Text) (f : F)
      → is_above p q ≡ false
      → fs.read_file q (fs.fwrite p text f).1 ≡ fs.read_file q f
  pub read-create_directory_other :
      (p q : FilePath) (f : F)
      → is_above q p ≡ false
      → fs.read_file q (fs.create_directory p f).1 ≡ fs.read_file q f
  pub read-create_directories_other :
      (p q : FilePath) (f : F)
      → is_above q p ≡ false
      → fs.read_file q (fs.create_directories p f).1 ≡ fs.read_file q f
  -- What can be read is a regular file of that size.
  pub read-is_regular_file :
      (p : FilePath) (text : Text) (f : F)
      → fs.read_file p f ≡ ok text
      → fs.is_regular_file p f ≡ true
  pub read-file_size :
      (p : FilePath) (text : Text) (f : F)
      → fs.read_file p f ≡ ok text
      → fs.file_size p f ≡ ok (length text)
