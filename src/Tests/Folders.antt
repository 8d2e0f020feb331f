-- ===== src/Tests/Folders.antt =====
-- A file system in memory: a tree of files and folders, and what the open streams were given.
use ot_sec_file_transfer.Base.{
  ℕ, ◌≡◌, refl, ap, ◌∙◌, arith, Bool, true, false, ◌&&◌, List, [], ◌∷◌, ◌++◌, Option, none, some,
  if◌then◌else◌, Text, codes, length, same, same_iff, is_ok, Result, ok, err, Void, notfound, io,
}
use ot_sec_file_transfer.Api.Router.{split_on}
use ot_sec_file_transfer.Storage.Store.Hashing.{put_file, put_file-hash_file}
use ot_sec_file_transfer.Storage.Interface.{StoredFile, meta}
use ot_sec_file_transfer.Storage.FileSystem.{FileSystem, FileSystemLaws, FilePath, is_above}
use ot_sec_file_transfer.Common.Times.{decimal}
use ot_sec_file_transfer.Storage.Uploads.{write, commit, finish, parent_path}
use ot_sec_file_transfer.Storage.Store.{
  Disk, file_store, create_transaction, has_transaction, file_path, hash_file, begin_upload,
  write_document, read_document, begin_write, file_name, tmp_path,
}
use ot_sec_file_transfer.Storage.Store.Documents.{file_store-KeepsDocuments}
use ot_sec_file_transfer.Transaction.Repository.Restart.{KeepsDocuments}

data Node : Type 0 where
  file : Text → Node
  folder : Node

record Tree : Type 0 where
  pub nodes : FilePath → Option Node
  pub streams : FilePath → Text

unfoldable at : {A : Type 0} → FilePath → A → (FilePath → A) → FilePath → A
at p a f q = if is_above p q && is_above q p then a else f q

abbrev text_of : Option Node → Result Text
text_of none = err notfound
text_of (some folder) = err io
text_of (some (file text)) = ok text

abbrev is_folder : Option Node → Bool
is_folder (some folder) = true
is_folder _ = false

abbrev is_file : Option Node → Bool
is_file (some (file _)) = true
is_file _ = false

abbrev folder_or : Option Node → Option Node
folder_or none = some folder
folder_or (some node) = some node

abbrev made : FilePath → Option Node → Tree → Result Bool × Tree
made p none t = (ok true, record t { nodes = at p (some folder) t.nodes })
made p (some node) t = (ok false, t)

abbrev moved : FilePath → FilePath → Option Node → Tree → Void × Tree
moved p q none t = (err io, t)
moved p q (some node) t = (ok tt, record t { nodes = at q (some node) (at p none t.nodes) })

abbrev with_size : Result Text → Result ℕ
with_size (ok text) = ok (length text)
with_size (err e) = err e

abbrev tree : FileSystem Tree
tree = record {
  create_directory = λ p t. made p (t.nodes p) t;
  create_directories = λ p t.
      (ok tt, record t { nodes = λ q. if is_above q p then folder_or (t.nodes q) else t.nodes q });
  remove = λ p t. (ok tt, record t { nodes = at p none t.nodes });
  remove_all = λ p t. (
    ok (if is_file (t.nodes p) then 1 else (if is_folder (t.nodes p) then 1 else 0)),
    record t { nodes = λ q. if is_above p q then none else t.nodes q },
  );
  rename = λ p q t. moved p q (t.nodes p) t;
  is_directory = λ p t. is_folder (t.nodes p);
  is_regular_file = λ p t. is_file (t.nodes p);
  is_empty_directory = λ p t. ok false;
  file_size = λ p t. with_size (text_of (t.nodes p));
  list_directories = λ p t. ok [];
  open_write =
      λ p t. (ok tt, record { nodes = at p (some (file [])) t.nodes; streams = at p [] t.streams });
  fwrite = λ p text t. (ok tt, record t { streams = at p (t.streams p ++ text) t.streams });
  sync_and_close = λ p t. (ok tt, record t { nodes = at p (some (file (t.streams p))) t.nodes });
  read_file = λ p t. text_of (t.nodes p);
}

is_above_refl : (p : FilePath) → is_above p p ≡ true
unfolding is_above
is_above_refl [] = refl
is_above_refl (a ∷ p) = ground (arith, same_iff a a, is_above_refl p)

at_same : {A : Type 0} (p : FilePath) (a : A) (f : FilePath → A) → at p a f p ≡ a
unfolding at
at_same p a f = ground (arith, is_above_refl p)

at_other :
    {A : Type 0} (p q : FilePath) (a : A) (f : FilePath → A)
    → is_above p q ≡ false
    → at p a f q ≡ f q
unfolding at
at_other p q a f h = ground (arith, h)

moved-read :
    (p q : FilePath) (n : Option Node) (t : Tree)
    → is_ok (moved p q n t).0 ≡ true
    → text_of ((moved p q n t).1.nodes q) ≡ text_of n
moved-read p q none t h = ground (arith, h)
moved-read p q (some n) t h = ap text_of (at_same q (some n) (at p none t.nodes))

moved-read_failed :
    (p q r : FilePath) (n : Option Node) (t : Tree)
    → is_ok (moved p q n t).0 ≡ false
    → text_of ((moved p q n t).1.nodes r) ≡ text_of (t.nodes r)
moved-read_failed p q r none t h = refl
moved-read_failed p q r (some n) t h = ground (arith, h)

moved-read_other :
    (p q r : FilePath) (n : Option Node) (t : Tree)
    → is_above p r ≡ false
    → is_above q r ≡ false
    → text_of ((moved p q n t).1.nodes r) ≡ text_of (t.nodes r)
moved-read_other p q r none t a b = refl
moved-read_other p q r (some n) t a b =
    ap text_of (at_other q r (some n) (at p none t.nodes) b ∙ at_other p r none t.nodes a)

made-read_other :
    (p q : FilePath) (n : Option Node) (t : Tree)
    → is_above q p ≡ false
    → text_of ((made p n t).1.nodes q) ≡ text_of (t.nodes q)
unfolding at
made-read_other p q none t a = ground (arith, a)
made-read_other p q (some n) t a = refl

is_file-text_of : (n : Option Node) (text : Text) → text_of n ≡ ok text → is_file n ≡ true
is_file-text_of none text h = ground (arith, h)
is_file-text_of (some folder) text h = ground (arith, h)
is_file-text_of (some (file old)) text h = refl

tree-FileSystemLaws : FileSystemLaws tree
tree-FileSystemLaws = record {
  pending = λ p t. t.streams p;
  pending-open_write = λ p t h. at_same p [] t.streams;
  pending-fwrite = λ p text t h. at_same p (t.streams p ++ text) t.streams;
  read-sync_and_close = λ p t h. ap text_of (at_same p (some (file (t.streams p))) t.nodes);
  read-rename = λ p q t h. moved-read p q (t.nodes p) t h;
  read-rename_failed = λ p q r t h. moved-read_failed p q r (t.nodes p) t h;
  read-rename_other = λ p q r t a b. moved-read_other p q r (t.nodes p) t a b;
  read-open_write_other = λ p q t h. ap text_of (at_other p q (some (file [])) t.nodes h);
  read-sync_and_close_other =
      λ p q t h. ap text_of (at_other p q (some (file (t.streams p))) t.nodes h);
  read-remove_other = λ p q t h. ap text_of (at_other p q none t.nodes h);
  read-remove_all_other = λ p q t h. ground (arith, h);
  read-fwrite_other = λ p q text t h. refl;
  read-create_directory_other = λ p q t h. made-read_other p q (t.nodes p) t h;
  read-create_directories_other = λ p q t h. ground (arith, h);
  read-is_regular_file = λ p text t h. is_file-text_of (t.nodes p) text h;
  read-file_size = λ p text t h. ap with_size h;
}

abbrev sha256 : Text → Result (List ℕ)
sha256 text = ok (length text ∷ [])

abbrev root : FilePath
root = codes "srv" ∷ []

file_store-KeepsDocuments_example : KeepsDocuments (file_store tree sha256 root)
file_store-KeepsDocuments_example = file_store-KeepsDocuments tree sha256 root tree-FileSystemLaws

abbrev created : Tree
unfolding create_transaction at is_above same
created =
    (create_transaction tree sha256 root (codes "t1")
      (record { nodes = λ _. none; streams = λ _. [] })).1

-- A document that is written to a new transaction is read back, and its temporary file is gone.
document_read_back :
    let after =
      (write_document tree sha256 root
        (codes "t1")
        meta
        (codes "{}")
        (record { files = created; counter = 0 })).1.files in
    (read_document tree sha256 root (codes "t1") meta after ≡ ok (codes "{}"))
    × (tree.is_regular_file (tmp_path root (codes "t1") 0) after ≡ false)
unfolding write_document read_document begin_write has_transaction tmp_path file_name commit write
    finish parent_path decimal created
document_read_back = (refl, refl)

-- Two chunks that go to a folder that is made for them.
abbrev uploaded : Result StoredFile × Disk Tree
uploaded =
    put_file tree sha256 root (codes "t1") (codes "a/b") (codes "he" ∷ codes "llo" ∷ []) none
      (record { files = created; counter = 1 })

put_file-hash_file_example :
    (hash_file tree sha256 root (codes "t1") (codes "a/b") uploaded.1.files
      ≡ ok (record { path = codes "a/b"; size = 5; sha256 = 5 ∷ [] }))
    × (tree.read_file (file_path root (codes "t1") (codes "a/b")) uploaded.1.files
        ≡ ok (codes "hello"))
unfolding put_file begin_upload begin_write has_transaction tmp_path commit write finish parent_path
    decimal created split_on
put_file-hash_file_example =
    put_file-hash_file tree sha256 root tree-FileSystemLaws (codes "t1") (codes "a/b")
      (codes "he" ∷ codes "llo" ∷ []) none (record { files = created; counter = 1 })
      (record { path = codes "a/b"; size = 5; sha256 = 5 ∷ [] }) refl
