-- ===== src/Transaction/Codec/RoundTrip.antt =====
-- meta.json and manifest.json are read back as they were written.
use ot_sec_file_transfer.Base.{
  ℕ, ◌<◌, ◌≡◌, refl, arith, false, Option, none, some, is_empty, Text, codes, same, Every, ok,
}
use ot_sec_file_transfer.Common.Json.{Fields, string, if_contains}
use ot_sec_file_transfer.Common.Times.{format_iso8601}
use ot_sec_file_transfer.Common.Times.RoundTrip.{parse_iso8601-format_iso8601}
use ot_sec_file_transfer.Common.Ids
use ot_sec_file_transfer.Transaction.Types.{
  Transaction, State, open_, committed, delivered, expired, to_string, parse_state,
}
use ot_sec_file_transfer.Transaction.Files.Order.{IsSorted}
use ot_sec_file_transfer.Transaction.Codec.{
  get_string, get_optional_string, get_name, get_uint64, get_timestamp, get_optional_timestamp,
  check_version, decode_meta_fields,
}
use ot_sec_file_transfer.Transaction.Codec.Files.{IsEntry, decode_files-encode_files}
use ot_sec_file_transfer.Transaction.Codec.Encoding.{IsMeta, time_field}

pub parse_state-to_string : (s : State) → parse_state (to_string s) ≡ ok s
unfolding parse_state to_string same
parse_state-to_string open_ = refl
parse_state-to_string committed = refl
parse_state-to_string delivered = refl
parse_state-to_string expired = refl

-- The end of the year 9999.
abbrev pub end_of_times : ℕ
end_of_times = 315569520000

abbrev pub IsTime? : Option ℕ → Type 0
IsTime? none = Unit
IsTime? (some t) = t < end_of_times

-- What a transaction has that the service keeps, but for the encoding of its texts.
pub record IsStorable (tx : Transaction) : Type 0 where
  pub id : Ids.parse tx.id ≡ ok tx.id
  pub sender : is_empty tx.sender ≡ false
  pub target_user : is_empty tx.target_user ≡ false
  pub created_at : tx.created_at < end_of_times
  pub expires_at : tx.expires_at < end_of_times
  pub committed_at : IsTime? tx.committed_at
  pub delivered_at : IsTime? tx.delivered_at
  pub sorted : IsSorted tx.files
  pub entries : Every IsEntry tx.files

module _ (obj : Fields) where
  pub get_timestamp-format :
      (key : Text) (t : ℕ)
      → t < end_of_times
      → if_contains obj key ≡ some (string (format_iso8601 t))
      → get_timestamp obj key ≡ ok t
  unfolding get_timestamp get_string
  get_timestamp-format key t h e = ground (arith, parse_iso8601-format_iso8601 t h)

  get_optional_timestamp-format :
      (key : Text) (t : Option ℕ)
      → IsTime? t
      → if_contains obj key ≡ time_field t none
      → get_optional_timestamp obj key ≡ ok t
  unfolding get_optional_timestamp
  get_optional_timestamp-format key none h e = ground arith
  get_optional_timestamp-format key (some t) h e = ground (arith, get_timestamp-format key t h e)

  pub decode_meta_fields-IsMeta :
      (tx : Transaction) → IsMeta obj tx → IsStorable tx → decode_meta_fields obj ≡ ok tx
  unfolding decode_meta_fields check_version get_uint64 get_string get_name get_optional_string
  decode_meta_fields-IsMeta tx m h = ground (
    arith,
    m.v,
    m.id,
    m.sender,
    m.target_user,
    m.target_server,
    m.origin_server,
    m.comment,
    m.state,
    parse_state-to_string tx.state,
    h.id,
    h.sender,
    h.target_user,
    get_timestamp-format (codes "created_at") tx.created_at h.created_at m.created_at,
    get_timestamp-format (codes "expires_at") tx.expires_at h.expires_at m.expires_at,
    get_optional_timestamp-format (codes "committed_at") tx.committed_at h.committed_at
        m.committed_at,
    get_optional_timestamp-format (codes "delivered_at") tx.delivered_at h.delivered_at
        m.delivered_at,
    decode_files-encode_files obj tx.files m.files h.sorted h.entries,
  )
