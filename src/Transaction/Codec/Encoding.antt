-- ===== src/Transaction/Codec/Encoding.antt =====
-- The fields of the documents, looked up by key.
use ot_sec_file_transfer.Base.{
  ℕ, ◌≡◌, refl, arith, Option, none, some, if◌then◌else◌, Text, codes, same, same_iff,
}
use ot_sec_file_transfer.Base.Int
use ot_sec_file_transfer.Common.Json.{
  Json, Fields, no_fields, field, string, array, int64, if_contains, set_field, reread,
  reread_fields, reread_items,
}
use ot_sec_file_transfer.Common.Times.{format_iso8601}
use ot_sec_file_transfer.Transaction.Types.{Transaction, to_string}
use ot_sec_file_transfer.Transaction.Codec.{with_time, meta_fields, encode_files}

abbrev pub reread? : Option Json → Option Json
reread? none = none
reread? (some v) = some (reread v)

pub if_contains-reread_fields :
    (obj : Fields) (key : Text)
    → if_contains (reread_fields obj) key ≡ reread? (if_contains obj key)
unfolding if_contains reread
if_contains-reread_fields no_fields key = refl
if_contains-reread_fields (field k v obj) key = ground (arith, if_contains-reread_fields obj key)

pub if_contains-set_field :
    (obj : Fields) (key other : Text) (v : Json)
    → if_contains (set_field obj key v) other
      ≡ (if same key other then some v else if_contains obj other)
unfolding if_contains set_field
if_contains-set_field no_fields key other v = refl
if_contains-set_field (field k w obj) key other v = ground (
  arith,
  if_contains-set_field obj key other v,
  same_iff k key,
  same_iff k other,
  same_iff key other,
)

abbrev pub time_field : Option ℕ → Option Json → Option Json
time_field none old = old
time_field (some t) old = some (string (format_iso8601 t))

pub if_contains-with_time :
    (key other : Text) (t : Option ℕ) (obj : Fields)
    → if_contains (with_time key t obj) other
      ≡ (if same key other then time_field t (if_contains obj other) else if_contains obj other)
if_contains-with_time key other none obj = ground arith
if_contains-with_time key other (some t) obj =
    ground (arith, if_contains-set_field obj key other (string (format_iso8601 t)))

-- What each key of meta.json holds.
pub record IsMeta (obj : Fields) (tx : Transaction) : Type 0 where
  pub v : if_contains obj (codes "v") ≡ some (int64 (Int.pos 1))
  pub id : if_contains obj (codes "id") ≡ some (string tx.id)
  pub sender : if_contains obj (codes "sender") ≡ some (string tx.sender)
  pub target_user : if_contains obj (codes "target_user") ≡ some (string tx.target_user)
  pub target_server : if_contains obj (codes "target_server") ≡ some (string tx.target_server)
  pub origin_server : if_contains obj (codes "origin_server") ≡ some (string tx.origin_server)
  pub comment : if_contains obj (codes "comment") ≡ some (string tx.comment)
  pub state : if_contains obj (codes "state") ≡ some (string (to_string tx.state))
  pub created_at :
      if_contains obj (codes "created_at") ≡ some (string (format_iso8601 tx.created_at))
  pub expires_at :
      if_contains obj (codes "expires_at") ≡ some (string (format_iso8601 tx.expires_at))
  pub committed_at : if_contains obj (codes "committed_at") ≡ time_field tx.committed_at none
  pub delivered_at : if_contains obj (codes "delivered_at") ≡ time_field tx.delivered_at none
  pub files : if_contains obj (codes "files") ≡ some (array (reread_items (encode_files tx.files)))

pub reread?-time_field : (t : Option ℕ) → reread? (time_field t none) ≡ time_field t none
unfolding reread
reread?-time_field none = refl
reread?-time_field (some t) = refl

pub ruleset lookups =
    (if_contains-reread_fields, if_contains-set_field, if_contains-with_time, reread?-time_field)

pub IsMeta-meta_fields : (tx : Transaction) → IsMeta (reread_fields (meta_fields tx)) tx
unfolding meta_fields if_contains same reread
IsMeta-meta_fields tx = record {
  v = simp lookups;
  id = simp lookups;
  sender = simp lookups;
  target_user = simp lookups;
  target_server = simp lookups;
  origin_server = simp lookups;
  comment = simp lookups;
  state = simp lookups;
  created_at = simp lookups;
  expires_at = simp lookups;
  committed_at = simp lookups;
  delivered_at = simp lookups;
  files = simp lookups;
}
