-- ===== src/Transaction/Codec/Documents.antt =====
-- The documents, as texts: what is written is read back, and what is read is well-formed.
use ot_sec_file_transfer.Base.{
  ◌≡◌, arith, inl, inr, Text, some, codes, same, ok, is_empty, false, Result-cases,
}
use ot_sec_file_transfer.Base.Int.{pos}
use ot_sec_file_transfer.Common.Json.{
  Fields, JsonText, object, array, int64, if_contains, reread, reread_fields, reread_items,
}
use ot_sec_file_transfer.Common.Ids
use ot_sec_file_transfer.Transaction.Types.{Transaction}
use ot_sec_file_transfer.Transaction.Files.Order.{IsSorted}
use ot_sec_file_transfer.Transaction.Codec.{
  parse_object, encode_meta, decode_meta, encode_manifest, decode_manifest, meta_fields,
  manifest_fields, decode_meta_fields, decode_files, encode_files, check_version, get_string,
  get_name, get_uint64, in_field,
}
use ot_sec_file_transfer.Transaction.Codec.Files.{decode_files-IsSorted, decode_files-encode_files}
use ot_sec_file_transfer.Transaction.Codec.Encoding.{IsMeta-meta_fields, lookups}
use ot_sec_file_transfer.Transaction.Codec.RoundTrip.{IsStorable, decode_meta_fields-IsMeta}
use ot_sec_file_transfer.Transaction.Codec.Printing.{
  IsText, is_printable-meta_fields, is_printable-manifest_fields,
}

module _ (j : JsonText) (tx : Transaction) where
  -- The meta.json of a transaction with an identifier, a sender and a target user that are accepted,
  -- times before the year 10000, a file list that is sorted by path, and texts in UTF-8 is read back
  -- as that transaction.
  pub decode_meta-encode_meta :
      IsStorable tx → IsText j tx → decode_meta j (encode_meta j tx) ≡ ok tx
  unfolding decode_meta encode_meta parse_object reread
  decode_meta-encode_meta h t = ground (
    arith,
    j.parse-serialize (object (meta_fields tx)) (is_printable-meta_fields j 29 tx h t),
    decode_meta_fields-IsMeta (reread_fields (meta_fields tx)) tx (IsMeta-meta_fields tx) h,
  )

  manifest_version :
      if_contains (reread_fields (manifest_fields tx)) (codes "v") ≡ some (int64 (pos 1))
  unfolding manifest_fields if_contains same reread
  manifest_version = simp lookups

  manifest_files :
      if_contains (reread_fields (manifest_fields tx)) (codes "files")
      ≡ some (array (reread_items (encode_files tx.files)))
  unfolding manifest_fields if_contains same reread
  manifest_files = simp lookups

  -- The manifest.json of such a transaction is read back as its file list.
  pub decode_manifest-encode_manifest :
      IsStorable tx → IsText j tx → decode_manifest j (encode_manifest j tx) ≡ ok tx.files
  unfolding decode_manifest encode_manifest parse_object reread check_version get_uint64
  decode_manifest-encode_manifest h t = ground (
    arith,
    j.parse-serialize (object (manifest_fields tx)) (is_printable-manifest_fields j 29 tx h t),
    manifest_version,
    decode_files-encode_files (reread_fields (manifest_fields tx)) tx.files manifest_files h.sorted
        h.entries,
  )

in_field-parse : (text id : Text) → in_field (Ids.parse text) ≡ ok id → Ids.parse id ≡ ok id
in_field-parse text id h = elim (Result-cases (Ids.parse text)) [
  | inl e ↦ ground arith
  | inr (found, e) ↦ ground (arith, Ids.parse-is_ascii text found e)
]

-- What `decode_meta_fields` accepts.
decode_meta_fields_sound :
    (obj : Fields) (tx : Transaction)
    → decode_meta_fields obj ≡ ok tx
    → (Ids.parse tx.id ≡ ok tx.id)
      × ((is_empty tx.sender ≡ false) × ((is_empty tx.target_user ≡ false) × IsSorted tx.files))
unfolding decode_meta_fields get_name
decode_meta_fields_sound obj tx h = elim (Result-cases (get_string obj (codes "id"))) [
  | inl e ↦ ground arith
  | inr (id_text, e) ↦ elim (Result-cases (in_field (Ids.parse id_text))) [
    | inl e' ↦ ground arith
    | inr (id, e') ↦ elim (Result-cases (decode_files obj)) [
      | inl f ↦ ground arith
      | inr (files, f) ↦
          ground (arith, in_field-parse id_text id e', decode_files-IsSorted obj files f)
    ]
  ]
]
