-- ===== src/Api/Json/RoundTrip.antt =====
-- What the forwarder sends is what the peer reads.
use ot_sec_file_transfer.Base.{
  ℕ, suc, ◌≡◌, ◌<◌, refl, arith, true, false, codes, same, is_empty, ok,
}
use ot_sec_file_transfer.Common.Json.{
  JsonText, object, if_contains, reread, reread_fields, is_printable, has_key,
}
use ot_sec_file_transfer.Common.Bytes.{is_ascii}
use ot_sec_file_transfer.Common.Ids
use ot_sec_file_transfer.Common.Ids.{parse-is_ascii}
use ot_sec_file_transfer.Common.Times.{format_iso8601}
use ot_sec_file_transfer.Common.Times.RoundTrip.{format_iso8601-is_ascii}
use ot_sec_file_transfer.Transaction.Service.Core.{ReceiveRequest}
use ot_sec_file_transfer.Transaction.Codec.{parse_object, get_string, get_name, get_optional_string}
use ot_sec_file_transfer.Transaction.Codec.RoundTrip.{end_of_times, get_timestamp-format}
use ot_sec_file_transfer.Transaction.Codec.Printing.{
  have_printable-field, is_printable-string, is_printable-ascii, is_printable-object,
  have_printable-no_fields,
}
use ot_sec_file_transfer.Api.Json.{receive_object, encode_receive, decode_receive}

-- A request that can be sent.
pub record IsSendable (j : JsonText) (req : ReceiveRequest) : Type 0 where
  pub id : Ids.parse req.id ≡ ok req.id
  pub sender : is_empty req.sender ≡ false
  pub target_user : is_empty req.target_user ≡ false
  pub created_at : req.created_at < end_of_times
  pub expires_at : req.expires_at < end_of_times
  pub sender_text : j.is_utf8 req.sender ≡ true
  pub target_user_text : j.is_utf8 req.target_user ≡ true
  pub comment_text : j.is_utf8 req.comment ≡ true

module _ (j : JsonText) (req : ReceiveRequest) where
  is_printable-receive_object :
      (depth : ℕ)
      → IsSendable j req
      → is_printable j.is_utf8 (suc depth) (object (receive_object req)) ≡ true
  unfolding receive_object has_key same is_ascii
  is_printable-receive_object d h = is_printable-object j d _ (
      have_printable-field j d (codes "id") _ _ refl refl
        (is_printable-ascii j req.id (parse-is_ascii req.id req.id h.id).1 d)
        (have_printable-field j d (codes "sender") _ _ refl refl
          (is_printable-string j req.sender h.sender_text d)
          (have_printable-field j d (codes "target_user") _ _ refl refl
            (is_printable-string j req.target_user h.target_user_text d)
            (have_printable-field j d (codes "created_at") _ _ refl refl
              (is_printable-ascii j (format_iso8601 req.created_at)
                (format_iso8601-is_ascii req.created_at h.created_at) d)
              (have_printable-field j d (codes "expires_at") _ _ refl refl
                (is_printable-ascii j (format_iso8601 req.expires_at)
                  (format_iso8601-is_ascii req.expires_at h.expires_at) d)
                (have_printable-field j d (codes "comment") _ _ refl refl
                  (is_printable-string j req.comment h.comment_text d)
                  (have_printable-no_fields j d)))))))

  -- The body of a push, of a request with an accepted identifier, a sender and a target user, times
  -- before the year 10000 and texts in UTF-8, is decoded by the peer to that request.
  pub decode_receive-encode_receive :
      IsSendable j req → decode_receive j (encode_receive j req) ≡ ok req
  unfolding decode_receive encode_receive parse_object receive_object reread if_contains same
      get_string get_name get_optional_string
  decode_receive-encode_receive h =
      let obj = reread_fields (receive_object req) in
      ground (
        arith,
        j.parse-serialize (object (receive_object req)) (is_printable-receive_object 31 h),
        h.id,
        h.sender,
        h.target_user,
        get_timestamp-format obj (codes "created_at") req.created_at h.created_at (ground arith),
        get_timestamp-format obj (codes "expires_at") req.expires_at h.expires_at (ground arith),
      )
