-- ===== src/Storage/Store/Files.antt =====
-- What `FileStore` on a file system says of the uploads.
use ot_sec_file_transfer.Base.{ℕ, arith, List, inl, inr, Result-cases, Text, same_iff, Result}
use ot_sec_file_transfer.Storage.FileSystem.{FileSystem, FilePath}
use ot_sec_file_transfer.Storage.Uploads.{write, finish, commit}
use ot_sec_file_transfer.Storage.Store.{begin_write, begin_upload, file_store}
use ot_sec_file_transfer.Forwarder.Delivery.{KeepsUploads}

module _ {F : Type 0} (fs : FileSystem F) (sha256 : Text → Result (List ℕ)) (root : FilePath) where
  -- An upload is of the path it was begun with, and is committed under that path and, where a digest
  -- is expected, with that digest only.
  pub file_store-KeepsUploads : KeepsUploads (file_store fs sha256 root)
  unfolding file_store begin_upload begin_write write commit finish
  file_store-KeepsUploads = record {
    path_of = λ u. u.path;
    path-begin = λ id path d u h. ground (arith, h);
    path-write = λ u u' chunk d h. ground (arith, h);
    path-commit = λ u expected d stored h. ground (arith, h);
    sha256-commit = λ u expected d stored h. elim (Result-cases (sha256 u.hashed)) [
      | inl e ↦ ground (arith, h)
      | inr (digest, e) ↦ ground (arith, same_iff expected digest, h)
    ];
  }
