-- ===== src/Api/Json.antt =====
-- api/json.hpp and json.cpp: the bodies of requests and responses. `parse_object`, `get_string`,
-- `get_name`, `get_optional_string`, `get_timestamp` and `file_object` are word for word those of
-- transaction/codec.cpp.
pub mod RoundTrip
use ot_sec_file_transfer.Base.{
  ℕ, ◌-◌, ◌^◌, Bool, true, false, not, ◌||◌, List, [], ◌∷◌, Option, none, some, if◌then◌else◌, Text,
  codes, Dict, ltb, leb, length, Result, ok, err, validation, ◌>>=◌, ◌>>◌, fail_if,
}
use ot_sec_file_transfer.Base.Int.{ℤ, pos, negsuc}
use ot_sec_file_transfer.Common.Json.{
  Json, Items, Fields, int64, uint64, string, array, object, no_items, item, no_fields, field,
  if_contains, set_field, has_key, JsonText,
}
use ot_sec_file_transfer.Common.Times.{format_iso8601}
use ot_sec_file_transfer.Common.Ids
use ot_sec_file_transfer.Transaction.Types.{Transaction, FileEntry, to_string, total_bytes}
use ot_sec_file_transfer.Transaction.Codec
use ot_sec_file_transfer.Transaction.Codec.{
  in_field, get_string, get_name, get_optional_string, get_timestamp, parse_object, is_absent,
  encode_file, with_time,
}
use ot_sec_file_transfer.Transaction.Service.Core.{CreateRequest, ReceiveRequest}
use ot_sec_file_transfer.Auth.Sessions.{SessionInfo, Scope, user, admin}

-- An `int64` in the range of `int`.
abbrev pub small_int : Option Json → Result ℤ
small_int (some (int64 (pos n))) = if ltb n (2 ^ 31) then ok (pos n) else err validation
small_int (some (int64 (negsuc n))) = if ltb n (2 ^ 31) then ok (negsuc n) else err validation
small_int _ = err validation

unfoldable pub get_optional_int : Fields → Text → Result ℤ
get_optional_int obj key =
    if is_absent (if_contains obj key) then ok (pos 0) else small_int (if_contains obj key)

unfoldable pub transaction_object : Transaction → Fields
transaction_object tx =
    set_field
      (set_field
        (with_time (codes "delivered_at") tx.delivered_at (
          with_time (codes "committed_at") tx.committed_at (
            field (codes "id") (string tx.id) (
              field (codes "state") (string (to_string tx.state)) (
                field (codes "sender") (string tx.sender) (
                  field (codes "target_user") (string tx.target_user) (
                    field (codes "target_server") (string tx.target_server) (
                      field (codes "comment") (string tx.comment) (
                        field (codes "created_at") (string (format_iso8601 tx.created_at)) (
                          field (codes "expires_at") (string (format_iso8601 tx.expires_at))
                            no_fields))))))))))
        (codes "file_count") (uint64 (length tx.files)))
      (codes "total_bytes") (uint64 (total_bytes tx))

unfoldable pub receive_object : ReceiveRequest → Fields
receive_object req = field (codes "id") (string req.id) (
    field (codes "sender") (string req.sender) (
      field (codes "target_user") (string req.target_user) (
        field (codes "created_at") (string (format_iso8601 req.created_at)) (
          field (codes "expires_at") (string (format_iso8601 req.expires_at))
            (field (codes "comment") (string req.comment) no_fields)))))

unfoldable pub transaction_items : List Transaction → Items
transaction_items [] = no_items
transaction_items (tx ∷ txs) = item (object (transaction_object tx)) (transaction_items txs)

unfoldable pub admin_object : Transaction → Fields
admin_object tx =
    set_field (transaction_object tx) (codes "origin_server") (string tx.origin_server)

unfoldable pub admin_items : List Transaction → Items
admin_items [] = no_items
admin_items (tx ∷ txs) = item (object (admin_object tx)) (admin_items txs)

unfoldable pub session_items : List SessionInfo → Items
session_items [] = no_items
session_items (s ∷ sessions) =
    item
      (object (
        field (codes "user") (string s.user) (
          field (codes "scope")
            (string (elim s.scope [ admin ↦ codes "admin" | user ↦ codes "user" ]))
            (field (codes "created") (string (format_iso8601 s.created)) (
              field (codes "last_used") (string (format_iso8601 s.last_used))
                (field (codes "expires_at") (string (format_iso8601 s.expires_at)) no_fields))))))
      (session_items sessions)

pub record PeerView : Type 0 where
  pub name : Text
  pub host : Text
  pub port : ℕ

-- GET /admin/status. The map of the counts is sorted by the name of the state.
pub record ServerStatus : Type 0 where
  pub instance : Text
  pub version : Text
  pub auth_provider : Text
  pub started_at : ℕ
  pub now : ℕ
  pub peers : List PeerView
  pub transactions : Dict ℕ
  pub outgoing : ℕ
  pub sessions : ℕ

unfoldable pub peer_items : List PeerView → Items
peer_items [] = no_items
peer_items (p ∷ peers) =
    item
      (object (
        field (codes "name") (string p.name)
          (field (codes "host") (string p.host) (field (codes "port") (uint64 p.port) no_fields))))
      (peer_items peers)

unfoldable pub count_fields : Dict ℕ → Fields → Fields
count_fields [] counts = counts
count_fields ((state, n) ∷ transactions) counts =
    count_fields transactions (set_field counts state (uint64 n))

-- `(now - started_at).count()`
abbrev pub uptime : ServerStatus → ℤ
uptime status =
    if leb status.started_at status.now
    then pos (status.now - status.started_at)
    else negsuc (status.started_at - status.now - 1)

module _ (j : JsonText) where
  unfoldable pub decode_create : Text → Result CreateRequest
  decode_create text = do
    obj ← parse_object j text
    target_user ← get_name obj (codes "target_user")
    target_server ← get_optional_string obj (codes "target_server")
    retention_days ← get_optional_int obj (codes "retention_days")
    comment ← get_optional_string obj (codes "comment")
    ok (record {
      target_user = target_user;
      target_server = target_server;
      retention_days = retention_days;
      comment = comment;
    })

  unfoldable pub decode_receive : Text → Result ReceiveRequest
  decode_receive text = do
    obj ← parse_object j text
    id_text ← get_string obj (codes "id")
    id ← in_field (Ids.parse id_text)
    sender ← get_name obj (codes "sender")
    target_user ← get_name obj (codes "target_user")
    created_at ← get_timestamp obj (codes "created_at")
    expires_at ← get_timestamp obj (codes "expires_at")
    comment ← get_optional_string obj (codes "comment")
    ok (record {
      id = id;
      sender = sender;
      target_user = target_user;
      created_at = created_at;
      expires_at = expires_at;
      comment = comment;
    })

  unfoldable pub decode_retention : Text → Result ℤ
  decode_retention text = do
    obj ← parse_object j text
    fail_if (not (has_key obj (codes "days"))) validation
    get_optional_int obj (codes "days")

  unfoldable pub encode_receive : ReceiveRequest → Text
  encode_receive req = j.serialize (object (receive_object req))

  unfoldable pub encode_transaction : Transaction → Text
  encode_transaction tx = j.serialize (object (transaction_object tx))

  unfoldable pub encode_transaction_list : List Transaction → Text
  encode_transaction_list txs =
      j.serialize (object (field (codes "transactions") (array (transaction_items txs)) no_fields))

  unfoldable pub encode_files : List FileEntry → Text
  encode_files files =
      j.serialize (object (field (codes "files") (array (Codec.encode_files files)) no_fields))

  unfoldable pub encode_file_entry : FileEntry → Text
  encode_file_entry file = j.serialize (encode_file file)

  unfoldable pub encode_admin_transaction : Transaction → Text
  encode_admin_transaction tx =
      j.serialize
        (object (set_field (admin_object tx) (codes "files") (array (Codec.encode_files tx.files))))

  unfoldable pub encode_admin_transaction_list : List Transaction → Text
  encode_admin_transaction_list txs =
      j.serialize (object (field (codes "transactions") (array (admin_items txs)) no_fields))

  unfoldable pub encode_sessions : List SessionInfo → Text
  encode_sessions sessions =
      j.serialize (object (field (codes "sessions") (array (session_items sessions)) no_fields))

  unfoldable pub encode_revoked : Text → ℕ → Text
  encode_revoked name count = j.serialize (
      object
        (field (codes "user") (string name) (field (codes "revoked") (uint64 count) no_fields)))

  unfoldable pub encode_status : ServerStatus → Text
  encode_status status = j.serialize (
      object (
        field (codes "instance") (string status.instance) (
          field (codes "version") (string status.version) (
            field (codes "auth_provider") (string status.auth_provider) (
              field (codes "started_at") (string (format_iso8601 status.started_at)) (
                field (codes "uptime_s") (int64 (uptime status)) (
                  field (codes "peers") (array (peer_items status.peers)) (
                    field (codes "transactions")
                      (object (count_fields status.transactions no_fields))
                      (field (codes "outgoing") (uint64 status.outgoing)
                        (field (codes "sessions") (uint64 status.sessions) no_fields))))))))))

  unfoldable pub encode_token : Text → Text → ℕ → Text
  encode_token token name expires_at = j.serialize (
      object (
        field (codes "token") (string token) (
          field (codes "user") (string name)
            (field (codes "expires_at") (string (format_iso8601 expires_at)) no_fields))))
