-- ===== src/Transaction/Codec/Printing.antt =====
-- The documents can be printed: their keys are ASCII and different, and their texts are UTF-8.
use ot_sec_file_transfer.Base.{
  ℕ, suc, ◌≡◌, refl, arith, Bool, true, false, ◌||◌, List, [], ◌∷◌, Option, none, some, Text, codes,
  same, same_iff, Every,
}
use ot_sec_file_transfer.Base.Int.{pos}
use ot_sec_file_transfer.Common.Bytes.{is_ascii}
use ot_sec_file_transfer.Common.Json.{
  Json, Fields, no_fields, field, JsonText, object, array, string, set_field, has_key, is_printable,
  are_printable, have_printable, int64,
}
use ot_sec_file_transfer.Common.Times.{format_iso8601}
use ot_sec_file_transfer.Common.Times.RoundTrip.{format_iso8601-is_ascii}
use ot_sec_file_transfer.Common.Digest.{to_hex}
use ot_sec_file_transfer.Common.Digest.RoundTrip.{to_hex-is_ascii}
use ot_sec_file_transfer.Common.Ids.{parse-is_ascii}
use ot_sec_file_transfer.Transaction.Types.{
  Transaction, FileEntry, State, open_, committed, delivered, expired, to_string,
}
use ot_sec_file_transfer.Transaction.Codec.{
  encode_file, encode_files, with_time, document_version, meta_fields, manifest_fields,
}
use ot_sec_file_transfer.Transaction.Codec.Files.{IsEntry}
use ot_sec_file_transfer.Transaction.Codec.RoundTrip.{IsStorable, IsTime?}

module _ (is_utf8 : Text → Bool) where
  has_key-set_field :
      (obj : Fields) (key other : Text) (v : Json)
      → has_key (set_field obj key v) other ≡ (same key other || has_key obj other)
  unfolding has_key set_field
  has_key-set_field no_fields key other v = ground arith
  has_key-set_field (field k w obj) key other v = ground (
    arith,
    has_key-set_field obj key other v,
    same_iff k key,
    same_iff k other,
    same_iff key other,
  )

  have_printable-set_field :
      (depth : ℕ) (obj : Fields) (key : Text) (v : Json)
      → is_printable is_utf8 (suc depth) (object obj) ≡ true
      → is_utf8 key ≡ true
      → is_printable is_utf8 depth v ≡ true
      → is_printable is_utf8 (suc depth) (object (set_field obj key v)) ≡ true
  unfolding is_printable set_field has_key
  have_printable-set_field depth no_fields key v h k p = ground arith
  have_printable-set_field depth (field j w obj) key v h k p = ground (
    arith,
    has_key-set_field obj key j v,
    same_iff j key,
    same_iff key j,
    have_printable-set_field depth obj key v,
  )

-- The texts of a transaction, in UTF-8.
pub record IsText (j : JsonText) (tx : Transaction) : Type 0 where
  pub sender : j.is_utf8 tx.sender ≡ true
  pub target_user : j.is_utf8 tx.target_user ≡ true
  pub target_server : j.is_utf8 tx.target_server ≡ true
  pub origin_server : j.is_utf8 tx.origin_server ≡ true
  pub comment : j.is_utf8 tx.comment ≡ true
  pub paths : Every (λ f. j.is_utf8 f.path ≡ true) tx.files

to_string-is_ascii : (s : State) → is_ascii (to_string s) ≡ true
unfolding to_string is_ascii
to_string-is_ascii open_ = refl
to_string-is_ascii committed = refl
to_string-is_ascii delivered = refl
to_string-is_ascii expired = refl

module _ (j : JsonText) where
  is_printable-encode_file :
      (depth : ℕ) (f : FileEntry)
      → IsEntry f
      → j.is_utf8 f.path ≡ true
      → is_printable j.is_utf8 (suc depth) (encode_file f) ≡ true
  unfolding encode_file is_printable has_key same is_ascii
  is_printable-encode_file depth f h p = ground (
    arith,
    h.size,
    j.ascii (codes "path") refl,
    j.ascii (codes "size") refl,
    j.ascii (codes "sha256") refl,
    j.ascii (to_hex f.sha256) (to_hex-is_ascii f.sha256 h.bytes),
  )

  are_printable-encode_files :
      (depth : ℕ) (files : List FileEntry)
      → Every IsEntry files
      → Every (λ f. j.is_utf8 f.path ≡ true) files
      → are_printable j.is_utf8 (suc depth) (encode_files files) ≡ true
  unfolding encode_files is_printable
  are_printable-encode_files depth [] h p = refl
  are_printable-encode_files depth (f ∷ files) (h, hs) (p, ps) =
      ground
        (arith, is_printable-encode_file depth f h p, are_printable-encode_files depth files hs ps)

  have_printable-with_time :
      (depth : ℕ) (obj : Fields) (key : Text) (t : Option ℕ)
      → IsTime? t
      → is_ascii key ≡ true
      → is_printable j.is_utf8 (suc depth) (object obj) ≡ true
      → is_printable j.is_utf8 (suc depth) (object (with_time key t obj)) ≡ true
  have_printable-with_time depth obj key none h k p = p
  have_printable-with_time depth obj key (some t) h k p =
      have_printable-set_field j.is_utf8 depth obj key (string (format_iso8601 t)) p (j.ascii key k)
        (unfold is_printable in j.ascii (format_iso8601 t) (format_iso8601-is_ascii t h))

  pub have_printable-field :
      (depth : ℕ) (key : Text) (v : Json) (obj : Fields)
      → is_ascii key ≡ true
      → has_key obj key ≡ false
      → is_printable j.is_utf8 depth v ≡ true
      → have_printable j.is_utf8 depth obj ≡ true
      → have_printable j.is_utf8 depth (field key v obj) ≡ true
  unfolding is_printable
  have_printable-field depth key v obj a h p ps = ground (arith, j.ascii key a)

  pub is_printable-string :
      (s : Text) → j.is_utf8 s ≡ true → (depth : ℕ) → is_printable j.is_utf8 depth (string s) ≡ true
  unfolding is_printable
  is_printable-string s h depth = h

  pub is_printable-ascii :
      (s : Text) → is_ascii s ≡ true → (depth : ℕ) → is_printable j.is_utf8 depth (string s) ≡ true
  unfolding is_printable
  is_printable-ascii s h depth = j.ascii s h

  pub is_printable-object :
      (depth : ℕ) (obj : Fields)
      → have_printable j.is_utf8 depth obj ≡ true
      → is_printable j.is_utf8 (suc depth) (object obj) ≡ true
  unfolding is_printable
  is_printable-object depth obj h = ground arith

  is_printable-files :
      (depth : ℕ) (tx : Transaction)
      → IsStorable tx
      → IsText j tx
      → is_printable j.is_utf8 (suc (suc depth)) (array (encode_files tx.files)) ≡ true
  unfolding is_printable
  is_printable-files depth tx h t =
      ground (arith, are_printable-encode_files depth tx.files h.entries t.paths)

  is_printable-version :
      (depth : ℕ) → is_printable j.is_utf8 depth (int64 (pos document_version)) ≡ true
  unfolding is_printable
  is_printable-version depth = refl

  pub have_printable-no_fields : (depth : ℕ) → have_printable j.is_utf8 depth no_fields ≡ true
  unfolding is_printable
  have_printable-no_fields depth = refl

  pub is_printable-meta_fields :
      (depth : ℕ) (tx : Transaction)
      → IsStorable tx
      → IsText j tx
      → is_printable j.is_utf8 (suc (suc (suc depth))) (object (meta_fields tx)) ≡ true
  unfolding meta_fields has_key same is_ascii
  is_printable-meta_fields depth tx h t =
      let d = suc (suc depth) in
      have_printable-set_field j.is_utf8 d _ (codes "files") _
        (have_printable-with_time d _ (codes "delivered_at") tx.delivered_at h.delivered_at refl (
          have_printable-with_time d _ (codes "committed_at") tx.committed_at h.committed_at refl (
            is_printable-object d _ (
              have_printable-field d (codes "v") _ _ refl refl (is_printable-version d) (
                have_printable-field d (codes "id") _ _ refl refl
                  (is_printable-ascii tx.id (parse-is_ascii tx.id tx.id h.id).1 d)
                  (have_printable-field d (codes "sender") _ _ refl refl
                    (is_printable-string tx.sender t.sender d)
                    (have_printable-field d (codes "target_user") _ _ refl refl
                      (is_printable-string tx.target_user t.target_user d)
                      (have_printable-field d (codes "target_server") _ _ refl refl
                        (is_printable-string tx.target_server t.target_server d)
                        (have_printable-field d (codes "origin_server") _ _ refl refl
                          (is_printable-string tx.origin_server t.origin_server d)
                          (have_printable-field d (codes "comment") _ _ refl refl
                            (is_printable-string tx.comment t.comment d)
                            (have_printable-field d (codes "state") _ _ refl refl
                              (is_printable-ascii (to_string tx.state) (to_string-is_ascii tx.state)
                                d)
                              (have_printable-field d (codes "created_at") _ _ refl refl
                                (is_printable-ascii (format_iso8601 tx.created_at)
                                  (format_iso8601-is_ascii tx.created_at h.created_at) d)
                                (have_printable-field d (codes "expires_at") _ _ refl refl
                                  (is_printable-ascii (format_iso8601 tx.expires_at)
                                    (format_iso8601-is_ascii tx.expires_at h.expires_at) d)
                                  (have_printable-no_fields d))))))))))))))
        (j.ascii (codes "files") refl) (is_printable-files depth tx h t)

  pub is_printable-manifest_fields :
      (depth : ℕ) (tx : Transaction)
      → IsStorable tx
      → IsText j tx
      → is_printable j.is_utf8 (suc (suc (suc depth))) (object (manifest_fields tx)) ≡ true
  unfolding manifest_fields has_key same is_ascii
  is_printable-manifest_fields depth tx h t =
      let d = suc (suc depth) in
      have_printable-set_field j.is_utf8 d _ (codes "files") _
        (is_printable-object d _ (
          have_printable-field d (codes "v") _ _ refl refl (is_printable-version d) (
            have_printable-field d (codes "id") _ _ refl refl
              (is_printable-ascii tx.id (parse-is_ascii tx.id tx.id h.id).1 d)
              (have_printable-no_fields d))))
        (j.ascii (codes "files") refl) (is_printable-files depth tx h t)
