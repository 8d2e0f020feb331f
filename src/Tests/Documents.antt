-- ===== src/Tests/Documents.antt =====
-- The documents of a transaction, and a restart of its server.
use mathlib.Core.Path.{subst}
use ot_sec_file_transfer.Base.{
  ℕ, ◌≡◌, refl, ap, arith, false, List, [], ◌∷◌, Option, some, none, Text, codes, Dict, lookup, put,
  erase, lookup-put, lookup-erase, same, same_iff, ok, err, notfound, internal, or_fail,
}
use ot_sec_file_transfer.Storage.Interface.{FileStore, Document, meta, manifest}
use ot_sec_file_transfer.Common.Ids
use ot_sec_file_transfer.Common.Paths
use ot_sec_file_transfer.Common.Times.{parse_iso8601, format_iso8601}
use ot_sec_file_transfer.Common.Times.RoundTrip.{parse_iso8601-format_iso8601}
use ot_sec_file_transfer.Transaction.Types.{Transaction, FileEntry, committed}
use ot_sec_file_transfer.Transaction.Codec.{encode_meta, decode_meta}
use ot_sec_file_transfer.Transaction.Codec.Files.{IsEntry}
use ot_sec_file_transfer.Transaction.Codec.RoundTrip.{IsStorable}
use ot_sec_file_transfer.Transaction.Codec.Printing.{IsText}
use ot_sec_file_transfer.Transaction.Codec.Documents.{decode_meta-encode_meta}
use ot_sec_file_transfer.Transaction.Repository.{Repo, insert, load}
use ot_sec_file_transfer.Transaction.Repository.Restart.{
  KeepsDocuments, same_document, listed, is_some, restarted,
}
use ot_sec_file_transfer.Transaction.Persistence.{json_codec, started, inserted, load_after_restart}
use ot_sec_file_transfer.Transaction.Service.Core.{ReceiveRequest}
use ot_sec_file_transfer.Api.Json.{encode_receive, decode_receive}
use ot_sec_file_transfer.Api.Json.RoundTrip.{IsSendable, decode_receive-encode_receive}
use ot_sec_file_transfer.Tests.JsonTexts.{json_text}

parse_iso8601-format_iso8601_example : parse_iso8601 (format_iso8601 63876543210) ≡ ok 63876543210
parse_iso8601-format_iso8601_example = parse_iso8601-format_iso8601 63876543210 (omega arith)

abbrev zeros : List ℕ
zeros =
    0 ∷ 0 ∷ 0 ∷ 0 ∷ 0 ∷ 0 ∷ 0 ∷ 0 ∷ 0 ∷ 0 ∷ 0 ∷ 0 ∷ 0 ∷ 0 ∷ 0 ∷ 0 ∷ 0 ∷ 0 ∷ 0 ∷ 0 ∷ 0 ∷ 0 ∷ 0 ∷ 0
    ∷ 0 ∷ 0 ∷ 0 ∷ 0 ∷ 0 ∷ 0 ∷ 0 ∷ 255 ∷ []

abbrev pub uuid : Text
uuid = codes "123e4567-e89b-42d3-a456-426614174000"

abbrev note : FileEntry
note = record { path = codes "notes/a.txt"; size = 7; sha256 = zeros }

abbrev tx : Transaction
tx = record {
  id = uuid;
  sender = codes "alice";
  target_user = codes "bob";
  target_server = codes "siteB";
  origin_server = [];
  comment = codes "hello";
  state = committed;
  created_at = 63876543210;
  expires_at = 63879135210;
  committed_at = some 63876543300;
  delivered_at = none;
  files = note ∷ [];
}

note-IsEntry : IsEntry note
unfolding Paths.parse Paths.check_bytes Paths.is_forbidden_char Paths.check_parts Paths.check_part
    same
note-IsEntry = record { path = refl; size = omega arith; digest = refl; bytes = ground arith }

tx-IsStorable : IsStorable tx
unfolding Ids.parse Ids.check_chars Ids.is_lower_hex
tx-IsStorable = record {
  id = refl;
  sender = refl;
  target_user = refl;
  created_at = omega arith;
  expires_at = omega arith;
  committed_at = omega arith;
  delivered_at = tt;
  sorted = (tt, tt);
  entries = (note-IsEntry, tt);
}

tx-IsText : IsText json_text tx
unfolding json_text
tx-IsText = record {
  sender = refl;
  target_user = refl;
  target_server = refl;
  origin_server = refl;
  comment = refl;
  paths = (refl, tt);
}

decode_meta-encode_meta_example : decode_meta json_text (encode_meta json_text tx) ≡ ok tx
decode_meta-encode_meta_example = decode_meta-encode_meta json_text tx tx-IsStorable tx-IsText

abbrev req : ReceiveRequest
req = record {
  id = uuid;
  sender = codes "alice";
  target_user = codes "bob";
  created_at = 63876543210;
  expires_at = 63879135210;
  comment = codes "hello";
}

req-IsSendable : IsSendable json_text req
unfolding Ids.parse Ids.check_chars Ids.is_lower_hex json_text
req-IsSendable = record {
  id = refl;
  sender = refl;
  target_user = refl;
  created_at = omega arith;
  expires_at = omega arith;
  sender_text = refl;
  target_user_text = refl;
  comment_text = refl;
}

decode_receive-encode_receive_example :
    decode_receive json_text (encode_receive json_text req) ≡ ok req
decode_receive-encode_receive_example = decode_receive-encode_receive json_text req req-IsSendable

-- A store of documents alone.
record Papers : Type 0 where
  pub metas : Dict Text
  pub manifests : Dict Text

abbrev keys : Dict Text → List Text
keys [] = []
keys ((id, _) ∷ m) = id ∷ keys m

abbrev store_document : Text → Document → Text → Papers → Papers
store_document id meta text d = record d { metas = put id text d.metas }
store_document id manifest text d = record d { manifests = put id text d.manifests }

abbrev find_document : Text → Document → Papers → Option Text
find_document id meta d = lookup id d.metas
find_document id manifest d = lookup id d.manifests

abbrev papers : FileStore Papers (Unit {0}) (Unit {0})
papers = record {
  create_transaction = λ id d. (ok tt, d);
  remove_transaction =
      λ id d. (ok tt, record { metas = erase id d.metas; manifests = erase id d.manifests });
  begin_upload = λ id path d. (err internal, d);
  write_upload = λ u chunk d. (err internal, d);
  commit_upload = λ u expected d. (err internal, d);
  open_read = λ id path d. err internal;
  hash_file = λ id path d. err internal;
  remove_file = λ id path d. (err internal, d);
  write_document = λ id doc text d. (ok tt, store_document id doc text d);
  list_transactions = λ d. ok (keys d.metas);
  read_document = λ id doc d. or_fail (find_document id doc d) notfound;
}

read-write :
    (id : Text) (doc : Document) (text : Text) (d : Papers)
    → or_fail (find_document id doc (store_document id doc text d)) notfound ≡ ok text
read-write id meta text d = ground (arith, lookup-put id id text d.metas, same_iff id id)
read-write id manifest text d = ground (arith, lookup-put id id text d.manifests, same_iff id id)

read-write_document :
    (id : Text) (doc kept : Document) (text : Text) (d : Papers)
    → same_document doc kept ≡ false
    → find_document id kept (store_document id doc text d) ≡ find_document id kept d
unfolding same_document
read-write_document id meta meta text d h = cc
read-write_document id meta manifest text d h = refl
read-write_document id manifest meta text d h = refl
read-write_document id manifest manifest text d h = cc

read-write_other :
    (id other : Text) (doc kept : Document) (text : Text) (d : Papers)
    → same id other ≡ false
    → find_document other kept (store_document id doc text d) ≡ find_document other kept d
read-write_other id other meta meta text d h = ground (arith, lookup-put id other text d.metas)
read-write_other id other meta manifest text d h = refl
read-write_other id other manifest meta text d h = refl
read-write_other id other manifest manifest text d h =
    ground (arith, lookup-put id other text d.manifests)

abbrev without : Text → Papers → Papers
without id d = record { metas = erase id d.metas; manifests = erase id d.manifests }

find-erase :
    (id other : Text) (kept : Document) (d : Papers)
    → same id other ≡ false
    → find_document other kept (without id d) ≡ find_document other kept d
find-erase id other meta d h = ground (arith, lookup-erase id other d.metas)
find-erase id other manifest d h = ground (arith, lookup-erase id other d.manifests)

papers-KeepsDocuments : KeepsDocuments papers
papers-KeepsDocuments = record {
  read-write = λ id doc text d h. read-write id doc text d;
  read-write_failed = λ id doc text d h. ground (arith, h);
  read-write_document = λ id doc kept text d h.
      ap (λ o. or_fail o notfound) (read-write_document id doc kept text d h);
  read-write_other = λ id other doc kept text d h.
      ap (λ o. or_fail o notfound) (read-write_other id other doc kept text d h);
  read-create_other = λ id other kept d h. refl;
  read-remove_other =
      λ id other kept d h. ap (λ o. or_fail o notfound) (find-erase id other kept d h);
}

abbrev no_papers : Papers
no_papers = record { metas = []; manifests = [] }

abbrev kept : Repo Papers
kept = (insert papers (json_codec json_text) tx (restarted no_papers)).1

kept-listed : (id : Text) → listed id (uuid ∷ []) ≡ is_some (lookup id kept.index)
unfolding listed lookup insert put
kept-listed id = ground arith

kept-IsStorable :
    (id : Text) (other : Transaction)
    → lookup id kept.index ≡ some other
    → IsStorable other × IsText json_text other
unfolding lookup insert put
kept-IsStorable id other h =
    let eq : tx ≡ other = ground arith in
    (subst IsStorable eq tx-IsStorable, subst (IsText json_text) eq tx-IsText)

load_after_restart_example :
    ((load papers (json_codec json_text) (restarted kept.disk)).0 ≡ ok tt)
    × ((id : Text)
        → lookup id (load papers (json_codec json_text) (restarted kept.disk)).1.index
          ≡ lookup id kept.index)
unfolding insert put lookup
load_after_restart_example =
    load_after_restart papers json_text papers-KeepsDocuments no_papers kept (uuid ∷ [])
      (inserted tx (restarted no_papers) started) kept-IsStorable refl kept-listed
