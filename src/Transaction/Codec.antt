-- ===== src/Transaction/Codec.antt =====
-- transaction/codec.hpp and codec.cpp: meta.json and manifest.json. The detail of an error, which
-- `in_field` extends, is no part of the model; the code of an error in a field is `validation`.
pub mod Encoding
pub mod Files
pub mod RoundTrip
pub mod Printing
pub mod Documents
use ot_sec_file_transfer.Base.{
  ℕ, Bool, true, false, not, ◌&&◌, ◌||◌, List, [], ◌∷◌, Option, none, some, if◌then◌else◌, is_empty,
  Text, codes, same, precedes, ltb, ◌==◌, Result, ok, err, Void, validation, ◌>>=◌, ◌>>◌, fail_if,
  or_fail,
}
use ot_sec_file_transfer.Base.Int.{pos, negsuc}
use ot_sec_file_transfer.Base.Sort.{sort}
use ot_sec_file_transfer.Common.Json.{
  Json, Items, Fields, null, int64, uint64, string, array, object, no_items, item, no_fields, field,
  if_contains, set_field, JsonText,
}
use ot_sec_file_transfer.Common.Times.{format_iso8601, parse_iso8601}
use ot_sec_file_transfer.Common.Digest.{to_hex, from_hex}
use ot_sec_file_transfer.Common.Ids
use ot_sec_file_transfer.Common.Paths
use ot_sec_file_transfer.Transaction.Types.{Transaction, FileEntry, State, to_string, parse_state}

abbrev pub in_field {ℓ} : {A : Type ℓ} → Result A → Result A
in_field (err e) = err validation
in_field (ok a) = ok a

abbrev pub as_object : Option Json → Result Fields
as_object (some (object fields)) = ok fields
as_object _ = err validation

abbrev pub as_string : Option Json → Result Text
as_string (some (string s)) = ok s
as_string _ = err validation

-- Absent or null.
abbrev pub is_absent : Option Json → Bool
is_absent none = true
is_absent (some null) = true
is_absent _ = false

abbrev pub as_uint64 : Option Json → Result ℕ
as_uint64 (some (uint64 n)) = ok n
as_uint64 (some (int64 (pos n))) = ok n
as_uint64 _ = err validation

unfoldable pub get_string : Fields → Text → Result Text
get_string obj key = as_string (if_contains obj key)

unfoldable pub get_optional_string : Fields → Text → Result Text
get_optional_string obj key = if is_absent (if_contains obj key) then ok [] else get_string obj key

unfoldable pub get_name : Fields → Text → Result Text
get_name obj key = do s ← get_string obj key; fail_if (is_empty s) validation; ok s

unfoldable pub get_uint64 : Fields → Text → Result ℕ
get_uint64 obj key = as_uint64 (if_contains obj key)

unfoldable pub get_timestamp : Fields → Text → Result ℕ
get_timestamp obj key = do text ← get_string obj key; in_field (parse_iso8601 text)

unfoldable pub get_optional_timestamp : Fields → Text → Result (Option ℕ)
get_optional_timestamp obj key =
    if is_absent (if_contains obj key)
    then ok none
    else (do ts ← get_timestamp obj key; ok (some ts))

abbrev pub document_version : ℕ
document_version = 1

unfoldable pub check_version : Fields → Void
check_version obj = do
  v ← get_uint64 obj (codes "v")
  fail_if (not (v == document_version)) validation

unfoldable pub encode_file : FileEntry → Json
encode_file f = object (
    field (codes "path") (string f.path) (
      field (codes "size") (uint64 f.size)
        (field (codes "sha256") (string (to_hex f.sha256)) no_fields)))

unfoldable pub encode_files : List FileEntry → Items
encode_files [] = no_items
encode_files (f ∷ files) = item (encode_file f) (encode_files files)

unfoldable pub decode_file : Json → Result FileEntry
decode_file entry = do
  f ← as_object (some entry)
  path_text ← get_string f (codes "path")
  path ← in_field (Paths.parse path_text)
  size ← get_uint64 f (codes "size")
  hex ← get_string f (codes "sha256")
  sha256 ← in_field (from_hex hex)
  ok (record { path = path; size = size; sha256 = sha256 })

-- The loop of `decode_files`.
unfoldable pub decode_items : Items → Result (List FileEntry)
decode_items no_items = ok []
decode_items (item v items) = do f ← decode_file v; files ← decode_items items; ok (f ∷ files)

unfoldable pub by_path : FileEntry → FileEntry → Bool
by_path f g = precedes f.path g.path

-- `adjacent_find` by path.
unfoldable pub has_duplicate : List FileEntry → Bool
has_duplicate [] = false
has_duplicate (f ∷ []) = false
has_duplicate (f ∷ g ∷ files) = same f.path g.path || has_duplicate (g ∷ files)

abbrev pub as_array : Option Json → Result Items
as_array (some (array items)) = ok items
as_array _ = err validation

unfoldable pub decode_files : Fields → Result (List FileEntry)
unfolding by_path has_duplicate
decode_files obj = do
  items ← as_array (if_contains obj (codes "files"))
  files ← decode_items items
  fail_if (has_duplicate (sort by_path files)) validation
  ok (sort by_path files)

abbrev pub with_time : Text → Option ℕ → Fields → Fields
with_time key none obj = obj
with_time key (some t) obj = set_field obj key (string (format_iso8601 t))

unfoldable pub meta_fields : Transaction → Fields
meta_fields tx =
    set_field
      (with_time (codes "delivered_at") tx.delivered_at (
        with_time (codes "committed_at") tx.committed_at (
          field (codes "v") (int64 (pos document_version)) (
            field (codes "id") (string tx.id) (
              field (codes "sender") (string tx.sender) (
                field (codes "target_user") (string tx.target_user) (
                  field (codes "target_server") (string tx.target_server) (
                    field (codes "origin_server") (string tx.origin_server) (
                      field (codes "comment") (string tx.comment) (
                        field (codes "state") (string (to_string tx.state)) (
                          field (codes "created_at") (string (format_iso8601 tx.created_at)) (
                            field (codes "expires_at") (string (format_iso8601 tx.expires_at))
                              no_fields))))))))))))
      (codes "files") (array (encode_files tx.files))

unfoldable pub manifest_fields : Transaction → Fields
manifest_fields tx =
    set_field
      (field (codes "v") (int64 (pos document_version))
        (field (codes "id") (string tx.id) no_fields))
      (codes "files") (array (encode_files tx.files))

-- `decode_meta`, from the object on.
unfoldable pub decode_meta_fields : Fields → Result Transaction
decode_meta_fields obj = do
  check_version obj
  id_text ← get_string obj (codes "id")
  id ← in_field (Ids.parse id_text)
  sender ← get_name obj (codes "sender")
  target_user ← get_name obj (codes "target_user")
  target_server ← get_string obj (codes "target_server")
  origin_server ← get_string obj (codes "origin_server")
  comment ← get_optional_string obj (codes "comment")
  state_text ← get_string obj (codes "state")
  state ← in_field (parse_state state_text)
  created_at ← get_timestamp obj (codes "created_at")
  expires_at ← get_timestamp obj (codes "expires_at")
  committed_at ← get_optional_timestamp obj (codes "committed_at")
  delivered_at ← get_optional_timestamp obj (codes "delivered_at")
  files ← decode_files obj
  ok (record {
    id = id;
    sender = sender;
    target_user = target_user;
    target_server = target_server;
    origin_server = origin_server;
    comment = comment;
    state = state;
    created_at = created_at;
    expires_at = expires_at;
    committed_at = committed_at;
    delivered_at = delivered_at;
    files = files;
  })

module _ (j : JsonText) where
  unfoldable pub parse_object : Text → Result Fields
  parse_object text = as_object (j.parse text)

  unfoldable pub encode_meta : Transaction → Text
  encode_meta tx = j.serialize (object (meta_fields tx))

  unfoldable pub decode_meta : Text → Result Transaction
  unfolding parse_object
  decode_meta text = do obj ← parse_object text; decode_meta_fields obj

  unfoldable pub encode_manifest : Transaction → Text
  encode_manifest tx = j.serialize (object (manifest_fields tx))

  unfoldable pub decode_manifest : Text → Result (List FileEntry)
  unfolding parse_object
  decode_manifest text = do obj ← parse_object text; check_version obj; decode_files obj
