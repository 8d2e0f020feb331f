-- ===== src/Transaction/Persistence.antt =====
-- A server that is started again: the repository over the documents of codec.cpp.
use ot_sec_file_transfer.Base.{◌≡◌, true, List, some, Text, lookup, ok, is_ok}
use ot_sec_file_transfer.Common.Json.{JsonText}
use ot_sec_file_transfer.Storage.Interface.{FileStore}
use ot_sec_file_transfer.Transaction.Types.{Transaction}
use ot_sec_file_transfer.Transaction.Codec.{encode_meta, encode_manifest, decode_meta}
use ot_sec_file_transfer.Transaction.Codec.RoundTrip.{IsStorable}
use ot_sec_file_transfer.Transaction.Codec.Printing.{IsText}
use ot_sec_file_transfer.Transaction.Codec.Documents.{decode_meta-encode_meta}
use ot_sec_file_transfer.Transaction.Repository.{
  Repo, Codec, insert, save, save_manifest, remove, load,
}
use ot_sec_file_transfer.Transaction.Repository.Restart.{
  KeepsDocuments, IsSynced, insert-IsSynced, save-IsSynced, save_manifest-IsSynced, remove-IsSynced,
  load-restores, listed, is_some, restarted, IsSynced-restarted,
}

abbrev pub json_codec : JsonText → Codec
json_codec j = record {
  encode_meta = encode_meta j;
  encode_manifest = encode_manifest j;
  decode_meta = decode_meta j;
}

-- The calls on the repository after its start on an empty disk. A removal that fails may leave a part of its folder,
-- so it is no step.
pub data IsReached {S U D : Type 0} (store : FileStore S U D) (codec : Codec) (start : S)
    : Repo S → Type 0 where
  started : IsReached store codec start (restarted start)
  inserted :
      (tx : Transaction) (r : Repo S)
      → IsReached store codec start r
      → IsReached store codec start (insert store codec tx r).1
  saved :
      (tx : Transaction) (r : Repo S)
      → IsReached store codec start r
      → IsReached store codec start (save store codec tx r).1
  listed_files :
      (tx : Transaction) (r : Repo S)
      → IsReached store codec start r
      → IsReached store codec start (save_manifest store codec tx r).1
  removed :
      (id : Text) (r : Repo S)
      → IsReached store codec start r
      → is_ok (remove store codec id r).0 ≡ true
      → IsReached store codec start (remove store codec id r).1

pub IsReached-IsSynced :
    {S U D : Type 0} (store : FileStore S U D) (codec : Codec) (k : KeepsDocuments store)
    (start : S) (r : Repo S)
    → IsReached store codec start r
    → IsSynced store codec r
IsReached-IsSynced store codec k start _ started = IsSynced-restarted store codec start
IsReached-IsSynced store codec k start _ (inserted tx r before) =
    insert-IsSynced store codec k tx r (IsReached-IsSynced store codec k start r before)
IsReached-IsSynced store codec k start _ (saved tx r before) =
    save-IsSynced store codec k tx r (IsReached-IsSynced store codec k start r before)
IsReached-IsSynced store codec k start _ (listed_files tx r before) =
    save_manifest-IsSynced store codec k tx r (IsReached-IsSynced store codec k start r before)
IsReached-IsSynced store codec k start _ (removed id r before done) =
    remove-IsSynced store codec k id r (IsReached-IsSynced store codec k start r before) done

-- A repository that insert, save, save_manifest and successful removals have led to, whose
-- transactions can be stored and are in UTF-8, and whose transactions are the folders that the file store lists: `load`
-- succeeds on its disk, and gives an index with the same transaction under every identifier.
pub load_after_restart :
    {S U D : Type 0} (store : FileStore S U D) (j : JsonText) (k : KeepsDocuments store) (start : S)
    (r : Repo S) (ids : List Text)
    → IsReached store (json_codec j) start r
    → ((id : Text) (tx : Transaction) → lookup id r.index ≡ some tx → IsStorable tx × IsText j tx)
    → store.list_transactions r.disk ≡ ok ids
    → ((id : Text) → listed id ids ≡ is_some (lookup id r.index))
    → ((load store (json_codec j) (restarted r.disk)).0 ≡ ok tt)
      × ((id : Text)
          → lookup id (load store (json_codec j) (restarted r.disk)).1.index ≡ lookup id r.index)
load_after_restart store j k start r ids reached storable e known =
    load-restores store (json_codec j) r (IsReached-IsSynced store (json_codec j) k start r reached)
      (λ id tx l. decode_meta-encode_meta j tx (storable id tx l).0 (storable id tx l).1) ids e
      known
