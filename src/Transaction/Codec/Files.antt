-- ===== src/Transaction/Codec/Files.antt =====
-- The file list: sorted when it is read, and read back as it was written.
use ot_sec_file_transfer.Base.{
  ◌^◌, ◌<◌, ◌≡◌, inl, inr, refl, arith, true, false, List, [], ◌∷◌, some, same, same_iff, precedes,
  precedes_irrefl, precedes_trans, precedes_total, length, Every, ok, Result-cases, codes,
}
use ot_sec_file_transfer.Base.Sort
use ot_sec_file_transfer.Base.Sort.{sort, insert_sorted, sort-IsSorted}
use ot_sec_file_transfer.Common.Bytes.{IsByte}
use ot_sec_file_transfer.Common.Json.{
  Fields, if_contains, reread, reread_items, reread_number, array,
}
use ot_sec_file_transfer.Common.Digest.{digest_size}
use ot_sec_file_transfer.Common.Digest.RoundTrip.{from_hex-to_hex}
use ot_sec_file_transfer.Common.Paths
use ot_sec_file_transfer.Transaction.Types.{FileEntry}
use ot_sec_file_transfer.Transaction.Files.Order.{IsSorted}
use ot_sec_file_transfer.Transaction.Codec.{
  by_path, has_duplicate, decode_files, decode_file, decode_items, encode_file, encode_files,
  as_array, get_string, get_uint64,
}

by_path_asymmetric : (f g : FileEntry) → by_path f g ≡ true → by_path g f ≡ false
unfolding by_path
by_path_asymmetric f g h =
    ground (arith, precedes_irrefl f.path, precedes_trans f.path g.path f.path)

by_path_transitive :
    (f g h : FileEntry) → by_path f g ≡ false → by_path g h ≡ false → by_path f h ≡ false
unfolding by_path
by_path_transitive f g h p q = ground (
  arith,
  precedes_total f.path g.path,
  precedes_total g.path h.path,
  precedes_trans g.path f.path h.path,
  precedes_trans h.path g.path f.path,
  precedes_trans f.path h.path g.path,
  precedes_irrefl f.path,
)

-- Sorted without duplicates is strictly sorted.
Every-strict :
    (f : FileEntry) (g : FileEntry) (files : List FileEntry)
    → precedes f.path g.path ≡ true
    → Every (λ k. by_path k g ≡ false) files
    → Every (λ k. precedes f.path k.path ≡ true) files
unfolding by_path
Every-strict f g [] h hs = tt
Every-strict f g (k ∷ files) h (a, hs) = ground (
  arith,
  precedes_total g.path k.path,
  precedes_trans f.path g.path k.path,
  Every-strict f g files h hs,
)

strict_of_IsSorted :
    (files : List FileEntry)
    → Sort.IsSorted by_path files
    → has_duplicate files ≡ false
    → IsSorted files
unfolding has_duplicate
strict_of_IsSorted [] h d = tt
strict_of_IsSorted (f ∷ []) h d = (tt, tt)
strict_of_IsSorted (f ∷ g ∷ files) ((a, rest), hs) d =
    let first : precedes f.path g.path ≡ true =
      unfold by_path in ground (arith, precedes_total f.path g.path, same_iff f.path g.path) in
    ((first, Every-strict f g files first (hs.0)), strict_of_IsSorted (g ∷ files) hs (ground arith))

-- What `decode_files` accepts is sorted by path without duplicates.
pub decode_files-IsSorted :
    (obj : Fields) (files : List FileEntry) → decode_files obj ≡ ok files → IsSorted files
unfolding decode_files
decode_files-IsSorted obj files h =
    elim (Result-cases (as_array (if_contains obj (codes "files")))) [
      | inl e ↦ ground arith
      | inr (items, e) ↦ elim (Result-cases (decode_items items)) [
        | inl e' ↦ ground arith
        | inr (found, e') ↦
            let strict =
              strict_of_IsSorted (sort by_path found)
                (sort-IsSorted by_path by_path_asymmetric by_path_transitive found) in
            ground (arith, strict)
      ]
    ]

sort-IsSorted_eq : (files : List FileEntry) → IsSorted files → sort by_path files ≡ files
unfolding sort insert_sorted by_path
sort-IsSorted_eq [] h = refl
sort-IsSorted_eq (f ∷ []) h = refl
sort-IsSorted_eq (f ∷ g ∷ files) ((a, rest), hs) = ground (
  arith,
  sort-IsSorted_eq (g ∷ files) hs,
  precedes_trans f.path g.path f.path,
  precedes_irrefl f.path,
)

has_duplicate-IsSorted : (files : List FileEntry) → IsSorted files → has_duplicate files ≡ false
unfolding has_duplicate
has_duplicate-IsSorted [] h = refl
has_duplicate-IsSorted (f ∷ []) h = refl
has_duplicate-IsSorted (f ∷ g ∷ files) ((a, rest), hs) =
    ground
      (arith, has_duplicate-IsSorted (g ∷ files) hs, same_iff f.path g.path, precedes_irrefl f.path)

-- An entry that the server can have stored.
pub record IsEntry (f : FileEntry) : Type 0 where
  pub path : Paths.parse f.path ≡ ok f.path
  pub size : f.size < 2 ^ 64
  pub digest : length f.sha256 ≡ digest_size
  pub bytes : Every IsByte f.sha256

decode_file-encode_file : (f : FileEntry) → IsEntry f → decode_file (reread (encode_file f)) ≡ ok f
unfolding decode_file encode_file reread reread_number get_string get_uint64 if_contains same
decode_file-encode_file f h = ground (arith, h.path, from_hex-to_hex f.sha256 h.digest h.bytes)

decode_items-encode_files :
    (files : List FileEntry)
    → Every IsEntry files
    → decode_items (reread_items (encode_files files)) ≡ ok files
unfolding decode_items encode_files reread
decode_items-encode_files [] h = refl
decode_items-encode_files (f ∷ files) (h, hs) =
    ground (arith, decode_file-encode_file f h, decode_items-encode_files files hs)

pub decode_files-encode_files :
    (obj : Fields) (files : List FileEntry)
    → if_contains obj (codes "files") ≡ some (array (reread_items (encode_files files)))
    → IsSorted files
    → Every IsEntry files
    → decode_files obj ≡ ok files
unfolding decode_files
decode_files-encode_files obj files e sorted h = ground (
  arith,
  decode_items-encode_files files h,
  sort-IsSorted_eq files sorted,
  has_duplicate-IsSorted files sorted,
)
