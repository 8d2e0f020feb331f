-- ===== src/Storage/Interface.antt =====
-- storage/storage.hpp: the operations of `FileStore` and `Upload` that the repository and the service
-- call. `S` is what is on disk, `U` an `Upload` in progress, `D` an open `Download`. An operation
-- gives its result and the disk after it, also where it fails.
use ot_sec_file_transfer.Base.{ℕ, List, Option, Text, Result, Void}

pub data Document : Type 0 where
  meta manifest : Document

pub record StoredFile : Type 0 where
  pub path : Text
  pub size : ℕ
  pub sha256 : List ℕ

pub record FileStore (S U D : Type 0) : Type 0 where
  pub create_transaction : Text → S → Void × S
  pub remove_transaction : Text → S → Void × S
  pub begin_upload : Text → Text → S → Result U × S
  pub write_upload : U → Text → S → Result U × S
  pub commit_upload : U → Option (List ℕ) → S → Result StoredFile × S
  pub open_read : Text → Text → S → Result D
  pub hash_file : Text → Text → S → Result StoredFile
  pub remove_file : Text → Text → S → Void × S
  pub write_document : Text → Document → Text → S → Void × S
  pub list_transactions : S → Result (List Text)
  pub read_document : Text → Document → S → Result Text
