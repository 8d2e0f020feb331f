-- ===== src/Storage/Store.antt =====
-- storage/storage.cpp and impl/documents.cpp: `FileStore` on a file system. The folders that a removal
-- leaves empty are dropped at best effort, from the file upwards.
pub mod Documents
pub mod Files
pub mod Hashing
use ot_sec_file_transfer.Base.{
  ℕ, zero, suc, ◌+◌, ◌-◌, ◌==◌, ◌%◌, ◌^◌, ◌≡◌, Bool, true, false, not, ◌&&◌, List, [], ◌∷◌, ◌++◌,
  Option, none, some, if◌then◌else◌, is_empty, length, Text, codes, same, precedes, before_first,
  is_ok, Result, ok, err, Void, notfound, conflict, io, internal, fail_if,
}
use ot_sec_file_transfer.Base.Sort.{sort}
use ot_sec_file_transfer.Common.Ids
use ot_sec_file_transfer.Common.Times.{decimal}
use ot_sec_file_transfer.Api.Router.{split_on}
use ot_sec_file_transfer.Storage.Interface.{Document, meta, manifest, StoredFile, FileStore}
use ot_sec_file_transfer.Storage.FileSystem.{FileSystem, FilePath}
use ot_sec_file_transfer.Storage.Uploads.{Upload, next, parent_path, write, commit}

-- The counter of `next_tmp_name` is of 64 bits, which no process counts through.
pub record Disk (F : Type 0) : Type 0 where
  pub files : F
  pub counter : ℕ

-- A file that is open for reading: its content and its size.
pub record Download : Type 0 where
  pub content : Text
  pub size : ℕ

unfoldable pub file_name : Document → Text
file_name meta = codes "meta.json"
file_name manifest = codes "manifest.json"

abbrev parsed : List Text → List Text
parsed [] = []
parsed (name ∷ names) =
    let rest = parsed names in if is_ok (Ids.parse name) then name ∷ rest else rest

module _ (root : FilePath) where
  abbrev pub tmp_dir : FilePath
  tmp_dir = root ++ codes "tmp" ∷ []

  abbrev pub transaction_dir : Text → FilePath
  transaction_dir id = root ++ codes "transactions" ∷ id ∷ []

  abbrev pub files_dir : Text → FilePath
  files_dir id = root ++ codes "transactions" ∷ id ∷ codes "files" ∷ []

  -- `path.under(files_dir(id))`
  abbrev pub file_path : Text → Text → FilePath
  file_path id path = files_dir id ++ split_on b'/' [] path

  abbrev pub document_path : Text → Document → FilePath
  document_path id doc = root ++ codes "transactions" ∷ id ∷ file_name doc ∷ []

  unfoldable pub tmp_path : Text → ℕ → FilePath
  tmp_path id counter = root ++ codes "tmp" ∷ (id ++ b'-' ∷ decimal counter ++ codes ".part") ∷ []

abbrev pub on_files : {F A : Type 0} → (F → Result A × F) → Disk F → Result A × Disk F
on_files m d = ((m d.files).0, record d { files = (m d.files).1 })

abbrev pub opened : {F : Type 0} → Text → FilePath → FilePath → Text → Void × F → Result Upload × F
opened id tmp final path (err e, f) = (err e, f)
opened id tmp final path (ok _, f) = (
  ok (record {
    hashed = [];
    tmp_path = tmp;
    final_path = final;
    path = path;
    size = 0;
    done = false;
  }),
  f,
)

abbrev pub void : {A B : Type 0} → Result A × B → Void × B
void (ok a, b) = (ok tt, b)
void (err e, b) = (err e, b)

module _ {F : Type 0} (fs : FileSystem F) (sha256 : Text → Result (List ℕ)) (root : FilePath) where
  unfoldable pub open_store : F → Void × F
  open_store f =
      next (fs.create_directories (root ++ codes "transactions" ∷ []) f)
        λ _ f. next (fs.remove_all (tmp_dir root) f) λ _ f. fs.create_directories (tmp_dir root) f

  unfoldable pub create_transaction : Text → F → Void × F
  create_transaction id f = next (fs.create_directory (transaction_dir root id) f) λ created f.
      next (fail_if (not created) conflict, f)
        λ _ f. next (fs.create_directory (files_dir root id) f) λ _ f. (ok tt, f)

  unfoldable pub remove_transaction : Text → F → Void × F
  remove_transaction id f =
      next (fs.remove_all (transaction_dir root id) f)
        λ removed f. (fail_if (removed == 0) notfound, f)

  unfoldable pub has_transaction : Text → F → Bool
  has_transaction id f = fs.is_directory (files_dir root id) f

  unfoldable pub list_transactions : F → Result (List Text)
  list_transactions f = elim (fs.list_directories (root ++ codes "transactions" ∷ []) f) [
    | err e ↦ err e
    | ok names ↦ ok (sort precedes (parsed names))
  ]

  unfoldable pub begin_write : Text → FilePath → Text → Disk F → Result Upload × Disk F
  unfolding tmp_path has_transaction
  begin_write id final path d =
      let tmp = tmp_path root id d.counter in
      let begun = opened id tmp final path (fs.open_write tmp d.files) in
      if has_transaction id d.files
      then (begun.0, record { files = begun.1; counter = d.counter + 1 })
      else (err notfound, d)

  unfoldable pub begin_upload : Text → Text → Disk F → Result Upload × Disk F
  begin_upload id path d = begin_write id (file_path root id path) path d

  unfoldable pub open_read : Text → Text → F → Result Download
  open_read id path f =
      if not (fs.is_regular_file (file_path root id path) f)
      then err notfound
      else (elim (fs.file_size (file_path root id path) f) [
        | err e ↦ err e
        | ok size ↦ elim (fs.read_file (file_path root id path) f) [
          | err e ↦ err e
          | ok content ↦ ok (record { content = content; size = size })
        ]
      ])

  unfoldable pub hash_file : Text → Text → F → Result StoredFile
  hash_file id path f = elim (open_read id path f) [
    | err e ↦ err e
    | ok download ↦ elim (sha256 download.content) [
      | err e ↦ err e
      | ok digest ↦
          ok (record { path = path; size = length download.content % 2 ^ 64; sha256 = digest })
    ]
  ]

  -- The loop over the emptied folders: `depth` parts are left above the files of the transaction.
  unfoldable pub drop_empty : ℕ → FilePath → F → F
  drop_empty zero dir f = f
  drop_empty (suc depth) dir f =
      let removed = fs.remove dir f in
      let above = drop_empty depth (parent_path dir) removed.1 in
      elim (fs.is_empty_directory dir f) [
        | err e ↦ f
        | ok empty ↦ if not empty then f else (if is_ok removed.0 then above else removed.1)
      ]

  unfoldable pub remove_file : Text → Text → F → Void × F
  unfolding drop_empty
  remove_file id path f =
      let p = file_path root id path in
      if not (fs.is_regular_file p f)
      then (err notfound, f)
      else (next (fs.remove p f)
          λ _ f. (ok tt, drop_empty (length (split_on b'/' [] path) - 1) (parent_path p) f))

  unfoldable pub write_document : Text → Document → Text → Disk F → Void × Disk F
  write_document id doc content d =
      next (begin_write id (document_path root id doc) (file_name doc) d) λ upload d.
        next (on_files (write fs sha256 upload content) d)
          λ upload d. void (on_files (commit fs sha256 upload none) d)

  unfoldable pub read_document : Text → Document → F → Result Text
  read_document id doc f = fs.read_file (document_path root id doc) f

  unfoldable pub file_store : FileStore (Disk F) Upload Download
  file_store = record {
    create_transaction = λ id. on_files (create_transaction id);
    remove_transaction = λ id. on_files (remove_transaction id);
    begin_upload = begin_upload;
    write_upload = λ u chunk. on_files (write fs sha256 u chunk);
    commit_upload = λ u expected. on_files (commit fs sha256 u expected);
    open_read = λ id path d. open_read id path d.files;
    hash_file = λ id path d. hash_file id path d.files;
    remove_file = λ id path. on_files (remove_file id path);
    write_document = write_document;
    list_transactions = λ d. list_transactions d.files;
    read_document = λ id doc d. read_document id doc d.files;
  }
