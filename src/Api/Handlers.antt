-- ===== src/Api/Handlers.antt =====
-- api/handlers.hpp and handlers.cpp: `TransactionHandlers`. Each handler is the chain up to its
-- response; the early returns with `fail` are its errors. The technical log is not modelled.
use ot_sec_file_transfer.Base.{
  ℕ, ◌≡◌, Bool, true, false, List, [], ◌∷◌, Option, none, some, if◌then◌else◌, Text, codes, same,
  is_empty, lookup, ErrCode, Result, ok, err, internal, validation, notfound, or_fail,
}
use ot_sec_file_transfer.Base
use ot_sec_file_transfer.Common.Digest.{from_hex}
use ot_sec_file_transfer.Common.Ids
use ot_sec_file_transfer.Common.Paths
use ot_sec_file_transfer.Transaction.Types.{Transaction, FileEntry}
use ot_sec_file_transfer.Transaction.Files.{find_file}
use ot_sec_file_transfer.Transaction.Service.Core.{
  M, BizEvent, BizEventType, record_event, event_for,
}
use ot_sec_file_transfer.Transaction.Service.Core
use ot_sec_file_transfer.Transaction.Service.Sending
use ot_sec_file_transfer.Transaction.Service.Uploading
use ot_sec_file_transfer.Transaction.Service.Uploading.{PendingUpload}
use ot_sec_file_transfer.Transaction.Service.Committing
use ot_sec_file_transfer.Transaction.Service.Reading
use ot_sec_file_transfer.Transaction.Service.Reading.{Box, in_, out}
use ot_sec_file_transfer.Api.Json.{
  decode_create, decode_receive, encode_transaction, encode_transaction_list, encode_files,
  encode_file_entry,
}
use ot_sec_file_transfer.Api.Context.{
  App, RequestContext, World, Handler, Response, send_file, json_response, no_content, respond,
  fail_hidden, in_service, read_service, lift, ◌>>=◌, ◌>>◌,
}

unfoldable pub id_param : RequestContext → Result Text
id_param ctx = Base.◌>>=◌ (or_fail (lookup (codes "id") ctx.params) internal) Ids.parse

unfoldable pub path_param : RequestContext → Result Text
path_param ctx = Base.◌>>=◌ (or_fail (lookup (codes "path") ctx.params) internal) Paths.parse

-- The query value "box", "in" where it is missing.
unfoldable pub box_of : Option Text → Result Box
box_of none = ok in_
box_of (some box_text) =
    if same box_text (codes "in")
    then ok in_
    else (if same box_text (codes "out") then ok out else err validation)

-- The digest of the header X-Checksum-SHA256, when it is not empty.
unfoldable pub expected_digest : Text → Result (Option (List ℕ))
expected_digest header =
    if is_empty header
    then ok none
    else (elim (from_hex header) [ err e ↦ err validation | ok digest ↦ ok (some digest) ])

unfoldable pub downloaded_event : Transaction → FileEntry → Text → Core.Caller → BizEvent
downloaded_event tx entry path caller = record {
  type = BizEventType.downloaded;
  tx = some tx.id;
  actor = caller.name;
  subject = [];
  from_user = tx.sender;
  to_user = tx.target_user;
  to_server = tx.target_server;
  file = some path;
  size = some entry.size;
  sha256 = some entry.sha256;
  file_count = none;
  total_bytes = none;
  retention_days = none;
}

module _ {S U D : Type 0} (app : App S U D) where
  unfoldable pub create : RequestContext → Handler S D Response
  create ctx = do
    body ← lift (ctx.request.read_body_string app.max_json_bytes)
    req ← lift (decode_create app.json body)
    tx ← in_service (Sending.create app.service ctx.caller req ctx.request.fresh_id ctx.request.now)
    lift (ok (json_response 201 (encode_transaction app.json tx)))

  unfoldable pub list : RequestContext → Handler S D Response
  list ctx = do
    box ← lift (box_of (lookup (codes "box") ctx.query))
    txs ← read_service (Reading.list app.service ctx.caller box)
    lift (ok (json_response 200 (encode_transaction_list app.json txs)))

  -- A call of the service that reads.
  abbrev asked : {A : Type 0} → (Core.Server S → Result A) → Handler S D A
  asked m = read_service m >>= lift

  unfoldable pub get : RequestContext → Handler S D Response
  get ctx = do
    id ← lift (id_param ctx)
    tx ← asked (Reading.get app.service ctx.caller id)
    lift (ok (json_response 200 (encode_transaction app.json tx)))

  -- The loop of `upload`.
  unfoldable pub write_chunks : List (Result Text) → PendingUpload U → M S (PendingUpload U)
  write_chunks [] pending s = (ok pending, s)
  write_chunks (err e ∷ chunks) pending s = (err e, s)
  write_chunks (ok chunk ∷ chunks) pending s =
      Core.resume (Uploading.write app.service pending chunk s) (write_chunks chunks)

  unfoldable pub upload : RequestContext → Handler S D Response
  upload ctx = do
    id ← lift (id_param ctx)
    path ← lift (path_param ctx)
    expected ← lift (expected_digest ctx.request.checksum)
    begun ← in_service (Uploading.begin_upload app.service ctx.caller id path)
    pending ← in_service (write_chunks ctx.request.chunks begun)
    entry ← in_service (Uploading.finish app.service pending expected)
    lift (ok (json_response 201 (encode_file_entry app.json entry)))

  unfoldable pub remove_file : RequestContext → Handler S D Response
  remove_file ctx = do
    id ← lift (id_param ctx)
    path ← lift (path_param ctx)
    in_service (Uploading.remove_file app.service ctx.caller id path)
    lift (ok no_content)

  unfoldable pub commit : RequestContext → Handler S D Response
  commit ctx = do
    id ← lift (id_param ctx)
    tx ← in_service (Committing.commit app.service ctx.caller id ctx.request.now)
    lift (ok (json_response 200 (encode_transaction app.json tx)))

  unfoldable pub list_files : RequestContext → Handler S D Response
  list_files ctx = do
    id ← lift (id_param ctx)
    tx ← asked (Reading.get app.service ctx.caller id)
    lift (ok (json_response 200 (encode_files app.json tx.files)))

  -- What `download` has before it sends the file.
  pub record Found : Type 0 where
    pub file : D
    pub tx : Transaction
    pub entry : FileEntry
    pub path : Text

  unfoldable pub find_download : RequestContext → Handler S D Found
  find_download ctx = do
    id ← lift (id_param ctx)
    path ← lift (path_param ctx)
    file ← asked (Reading.open_download app.service ctx.caller id path)
    tx ← asked (Reading.get app.service ctx.caller id)
    entry ← lift (or_fail (find_file tx.files path) notfound)
    lift (ok (record { file = file; tx = tx; entry = entry; path = path }))

  sent_file : RequestContext → Result Found × World S D → World S D
  sent_file ctx (err e, w) = fail_hidden e w
  sent_file ctx (ok found, w) =
      let w' = respond (send_file found.file found.entry.sha256) w in
      elim ctx.request.file_sent [
        | err e ↦ w'
        | ok _ ↦
            (in_service (record_event (downloaded_event found.tx found.entry found.path ctx.caller))
              w').1
      ]

  unfoldable pub download : RequestContext → World S D → World S D
  unfolding sent_file
  download ctx w = sent_file ctx (find_download ctx w)

  unfoldable pub receive : RequestContext → Handler S D Response
  receive ctx = do
    body ← lift (ctx.request.read_body_string app.max_json_bytes)
    req ← lift (decode_receive app.json body)
    tx ← in_service (Sending.receive app.service ctx.caller req)
    lift (ok (json_response 201 (encode_transaction app.json tx)))
