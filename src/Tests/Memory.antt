-- ===== src/Tests/Memory.antt =====
-- A file store in memory, which stands in for the disk in the examples: folders of stored files.
-- Every upload holds the same five bytes.
use ot_sec_file_transfer.Base.{
  ℕ, arith, Bool, Option, same, same_iff, integrity, if◌then◌else◌, true, false, List, [], ◌∷◌,
  none, some, Text, codes, Dict, lookup, put, erase, ok, err, conflict, internal, notfound,
}
use ot_sec_file_transfer.Base.Int.{pos}
use ot_sec_file_transfer.Storage.Interface.{StoredFile, FileStore}
use ot_sec_file_transfer.Forwarder.Delivery.{KeepsUploads}
use ot_sec_file_transfer.Transaction.Service.Core.{Caller, CreateRequest, Service, Server}

abbrev pub Disk : Type 0
Disk = Dict (Dict StoredFile)

pub record Upload : Type 0 where
  pub id : Text
  pub path : Text

abbrev pub content : Text → StoredFile
content path = record { path = path; size = 5; sha256 = 1 ∷ 2 ∷ [] }

abbrev folder_or_fail : {A : Type 0} → Text → Disk → (Dict StoredFile → A × Disk) → A → A × Disk
folder_or_fail id disk found missing = elim (lookup id disk) [
  | none ↦ (missing, disk)
  | some folder ↦ found folder
]

abbrev keys : Disk → List Text
keys [] = []
keys ((id, _) ∷ disk) = id ∷ keys disk

abbrev pub memory : FileStore Disk Upload StoredFile
unfolding lookup put erase
memory = record {
  create_transaction = λ id disk. elim (lookup id disk) [
    | none ↦ (ok tt, put id [] disk)
    | some _ ↦ (err conflict, disk)
  ];
  remove_transaction =
      λ id disk. folder_or_fail id disk (λ _. (ok tt, erase id disk)) (err notfound);
  begin_upload = λ id path disk.
      folder_or_fail id disk (λ _. (ok (record { id = id; path = path }), disk)) (err notfound);
  write_upload = λ u chunk disk. (ok u, disk);
  commit_upload = λ u expected disk.
      folder_or_fail u.id disk
        (λ folder. (ok (content u.path), put u.id (put u.path (content u.path) folder) disk))
        (err notfound);
  open_read = λ id path disk. ok (content path);
  hash_file = λ id path disk. elim (lookup id disk) [
    | none ↦ err notfound
    | some folder ↦ elim (lookup path folder) [ none ↦ err notfound | some f ↦ ok f ]
  ];
  remove_file = λ id path disk.
      folder_or_fail id disk (λ folder. (ok tt, put id (erase path folder) disk)) (err notfound);
  write_document = λ id doc text disk. folder_or_fail id disk (λ _. (ok tt, disk)) (err notfound);
  list_transactions = λ disk. ok (keys disk);
  read_document = λ id doc disk. err notfound;
}

abbrev pub service : Service Disk Upload StoredFile
unfolding memory
service = record {
  store = memory;
  codec = record {
    encode_meta = λ tx. tx.id;
    encode_manifest = λ tx. tx.id;
    decode_meta = λ _. err internal;
  };
  local_server = codes "siteA";
  default_retention_days = pos 30;
  max_retention_days = pos 365;
  max_comment_length = 256;
  check_destination = none;
  is_recipient = none;
  has_commit_hook = true;
}

-- The same with a store that compares digests.
abbrev pub is_expected : Option (List ℕ) → List ℕ → Bool
is_expected none sha256 = true
is_expected (some expected) sha256 = same expected sha256

abbrev pub store : FileStore Disk Upload StoredFile
unfolding memory
store = record memory {
  commit_upload = λ u expected disk.
      if is_expected expected (content u.path).sha256
      then memory.commit_upload u expected disk
      else (err integrity, disk);
}

pub store-KeepsUploads : KeepsUploads store
unfolding store memory
store-KeepsUploads = record {
  path_of = λ u. u.path;
  path-begin = λ id path disk u h. ground arith;
  path-write = λ u u' chunk disk h. ground arith;
  path-commit = λ u expected disk stored h. ground arith;
  sha256-commit = λ u sha256 disk stored h. ground (arith, same_iff sha256 (content u.path).sha256);
}

abbrev pub site_b : Service Disk Upload StoredFile
unfolding store
site_b = record service { store = store; local_server = codes "siteB" }

abbrev pub empty : Server Disk
empty = record { repo = record { index = []; disk = [] }; log = []; handed = []; locks = [] }

abbrev pub alice : Caller
alice = record { name = codes "alice"; is_peer = false; is_admin = false }

abbrev pub bob : Caller
bob = record { name = codes "bob"; is_peer = false; is_admin = false }

abbrev pub root : Caller
root = record { name = codes "root"; is_peer = false; is_admin = true }

abbrev pub to_bob : CreateRequest
to_bob = record {
  target_user = codes "bob";
  target_server = [];
  retention_days = pos 0;
  comment = codes "hello";
}
