-- ===== src/Common/Json.antt =====
-- What the code uses of boost::json, which is not part of the repository: the values as documented,
-- and `json::parse` and `json::serialize` as the interface `JsonText`. An object keeps its fields in
-- the order of their insertion, and has each key once.
use ot_sec_file_transfer.Base.{
  ℕ, ◌-◌, ◌^◌, ◌≡◌, Bool, true, false, not, ◌&&◌, ◌||◌, Option, none, some, if◌then◌else◌, Text,
  same, ltb,
}
use ot_sec_file_transfer.Common.Bytes.{is_ascii}
use ot_sec_file_transfer.Base.Int.{ℤ, pos, negsuc}

mutual
  pub data Json : Type 0 where
    null : Json
    bool : Bool → Json
    int64 : ℤ → Json
    uint64 : ℕ → Json
    double : ℕ → Json
    string : Text → Json
    array : Items → Json
    object : Fields → Json

  pub data Items : Type 0 where
    no_items : Items
    item : Json → Items → Items

  pub data Fields : Type 0 where
    no_fields : Fields
    field : Text → Json → Fields → Fields

-- `if_contains`
unfoldable pub if_contains : Fields → Text → Option Json
if_contains no_fields key = none
if_contains (field k v fields) key = if same k key then some v else if_contains fields key

-- `obj[key] = value`
unfoldable pub set_field : Fields → Text → Json → Fields
set_field no_fields key value = field key value no_fields
set_field (field k v fields) key value =
    if same k key then field k value fields else field k v (set_field fields key value)

-- What is read for an integer: an `int64` where it fits one.
unfoldable pub reread_number : ℕ → Json
reread_number n = if ltb n (2 ^ 63) then int64 (pos n) else uint64 n

-- What is read for the text of a value.
unfoldable mutual
  pub reread : Json → Json
  reread null = null
  reread (bool b) = bool b
  reread (int64 n) = int64 n
  reread (uint64 n) = reread_number n
  reread (double x) = double x
  reread (string s) = string s
  reread (array items) = array (reread_items items)
  reread (object fields) = object (reread_fields fields)

  pub reread_items : Items → Items
  reread_items no_items = no_items
  reread_items (item v items) = item (reread v) (reread_items items)

  pub reread_fields : Fields → Fields
  reread_fields no_fields = no_fields
  reread_fields (field k v fields) = field k (reread v) (reread_fields fields)

abbrev pub fits_int64 : ℤ → Bool
fits_int64 (pos n) = ltb n (2 ^ 63)
fits_int64 (negsuc n) = ltb n (2 ^ 63)

unfoldable pub has_key : Fields → Text → Bool
has_key no_fields key = false
has_key (field k v fields) key = same k key || has_key fields key

-- The values whose text is read back: texts in UTF-8, integers in range, no doubles, no key twice,
-- and arrays and objects nested at most `depth` deep.
module _ (is_utf8 : Text → Bool) where
  unfoldable mutual
    pub is_printable : ℕ → Json → Bool
    is_printable depth null = true
    is_printable depth (bool b) = true
    is_printable depth (int64 n) = fits_int64 n
    is_printable depth (uint64 n) = ltb n (2 ^ 64)
    is_printable depth (double x) = false
    is_printable depth (string s) = is_utf8 s
    is_printable depth (array items) = ltb 0 depth && are_printable (depth - 1) items
    is_printable depth (object fields) = ltb 0 depth && have_printable (depth - 1) fields

    pub are_printable : ℕ → Items → Bool
    are_printable depth no_items = true
    are_printable depth (item v items) = is_printable depth v && are_printable depth items

    pub have_printable : ℕ → Fields → Bool
    have_printable depth no_fields = true
    have_printable depth (field k v fields) =
        is_utf8 k && not (has_key fields k) && is_printable depth v && have_printable depth fields

-- `json::parse` refuses what is nested deeper.
abbrev pub max_depth : ℕ
max_depth = 32

pub record JsonText : Type 0 where
  pub parse : Text → Option Json
  pub serialize : Json → Text
  pub is_utf8 : Text → Bool
  -- ASCII texts are UTF-8.
  pub ascii : (s : Text) → is_ascii s ≡ true → is_utf8 s ≡ true
  pub parse-serialize :
      (v : Json) → is_printable is_utf8 max_depth v ≡ true → parse (serialize v) ≡ some (reread v)
