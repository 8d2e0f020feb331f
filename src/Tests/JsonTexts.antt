-- ===== src/Tests/JsonTexts.antt =====
-- A text form of JSON values that is not boost's, but of which the laws of `JsonText` hold: a prefix
-- code, after the number of its nodes.
use ot_sec_file_transfer.Base.{
  ℕ, zero, suc, ◌+◌, ◌≤◌, ◌≡◌, refl, ap, arith, true, false, [], ◌∷◌, ◌++◌, Option, none, some,
  Text, length, if◌then◌else◌, ◌==◌,
}
use ot_sec_file_transfer.Base.Int.{pos, negsuc}
use ot_sec_file_transfer.Common.Json.{
  Json, Items, Fields, null, bool, int64, uint64, double, string, array, object, no_items, item,
  no_fields, field, reread, JsonText,
}

unfoldable mutual
  pub enc : Json → Text → Text
  enc null k = 0 ∷ k
  enc (bool true) k = 1 ∷ k
  enc (bool false) k = 2 ∷ k
  enc (int64 (pos n)) k = 3 ∷ n ∷ k
  enc (int64 (negsuc n)) k = 4 ∷ n ∷ k
  enc (uint64 n) k = 5 ∷ n ∷ k
  enc (double n) k = 6 ∷ n ∷ k
  enc (string s) k = 7 ∷ length s ∷ s ++ k
  enc (array items) k = 8 ∷ enc_items items k
  enc (object members) k = 9 ∷ enc_fields members k

  pub enc_items : Items → Text → Text
  enc_items no_items k = 0 ∷ k
  enc_items (item v items) k = 1 ∷ enc v (enc_items items k)

  pub enc_fields : Fields → Text → Text
  enc_fields no_fields k = 0 ∷ k
  enc_fields (field key v members) k = 1 ∷ length key ∷ key ++ enc v (enc_fields members k)

unfoldable mutual
  pub size : Json → ℕ
  size (array items) = suc (size_items items)
  size (object members) = suc (size_fields members)
  size _ = 1

  pub size_items : Items → ℕ
  size_items no_items = 1
  size_items (item v items) = suc (size v + size_items items)

  pub size_fields : Fields → ℕ
  size_fields no_fields = 1
  size_fields (field key v members) = suc (size v + size_fields members)

unfoldable pub split_at : ℕ → Text → Option (Text × Text)
split_at zero k = some ([], k)
split_at (suc n) [] = none
split_at (suc n) (c ∷ k) = elim (split_at n k) [ none ↦ none | some (s, rest) ↦ some (c ∷ s, rest) ]

abbrev pub read_string : Option (Text × Text) → Option (Json × Text)
read_string none = none
read_string (some (s, k)) = some (string s, k)

abbrev pub read_array : Option (Items × Text) → Option (Json × Text)
read_array none = none
read_array (some (items, k)) = some (array items, k)

abbrev pub read_object : Option (Fields × Text) → Option (Json × Text)
read_object none = none
read_object (some (members, k)) = some (object members, k)

abbrev pub with_item : Json → Option (Items × Text) → Option (Items × Text)
with_item v none = none
with_item v (some (items, k)) = some (item v items, k)

abbrev pub with_field : Text → Json → Option (Fields × Text) → Option (Fields × Text)
with_field key v none = none
with_field key v (some (members, k)) = some (field key v members, k)

unfoldable pub number_of : ℕ → ℕ → Text → Option (Json × Text)
number_of tag n k =
    if tag == 3
    then some (int64 (pos n), k)
    else (if tag == 4
        then some (int64 (negsuc n), k)
        else (if tag == 5
            then some (uint64 n, k)
            else (if tag == 6 then some (double n, k) else read_string (split_at n k))))

unfoldable pub leaf : ℕ → Text → Option (Json × Text)
leaf tag k =
    if tag == 0
    then some (null, k)
    else (if tag == 1
        then some (bool true, k)
        else (if tag == 2
            then some (bool false, k)
            else elim k [ [] ↦ none | n ∷ rest ↦ number_of tag n rest ]))

unfoldable mutual
  pub dec : ℕ → Text → Option (Json × Text)
  dec zero text = none
  dec (suc f) [] = none
  dec (suc f) (tag ∷ k) =
      let items = dec_items f k in
      let fields = dec_fields f k in
      if tag == 8 then read_array items else (if tag == 9 then read_object fields else leaf tag k)

  pub dec_items : ℕ → Text → Option (Items × Text)
  dec_items zero text = none
  dec_items (suc f) [] = none
  dec_items (suc f) (tag ∷ k) =
      let more : Option (Items × Text) = elim (dec f k) [
        | none ↦ none
        | some (v, k') ↦ with_item v (dec_items f k')
      ] in
      if tag == 0 then some (no_items, k) else more

  pub dec_fields : ℕ → Text → Option (Fields × Text)
  dec_fields zero text = none
  dec_fields (suc f) [] = none
  dec_fields (suc f) (tag ∷ []) = some (no_fields, [])
  dec_fields (suc f) (tag ∷ n ∷ k) =
      let more : Option (Fields × Text) = elim (split_at n k) [
        | none ↦ none
        | some (key, k') ↦ elim (dec f k') [
          | none ↦ none
          | some (v, k'') ↦ with_field key v (dec_fields f k'')
        ]
      ] in
      if tag == 0 then some (no_fields, n ∷ k) else more

pub split_at-append : (s k : Text) → split_at (length s) (s ++ k) ≡ some (s, k)
unfolding split_at
split_at-append [] k = refl
split_at-append (c ∷ s) k = ground (arith, split_at-append s k)

mutual
  unfolding dec enc size leaf number_of

  pub dec-enc : (v : Json) (f : ℕ) (k : Text) → size v ≤ f → dec f (enc v k) ≡ some (v, k)
  dec-enc null (suc f) k h = refl
  dec-enc (bool true) (suc f) k h = refl
  dec-enc (bool false) (suc f) k h = refl
  dec-enc (int64 (pos n)) (suc f) k h = refl
  dec-enc (int64 (negsuc n)) (suc f) k h = refl
  dec-enc (uint64 n) (suc f) k h = refl
  dec-enc (double n) (suc f) k h = refl
  dec-enc (string s) (suc f) k h = ground (arith, split_at-append s k)
  dec-enc (array items) (suc f) k h = ground (arith, dec_items-enc_items items f k)
  dec-enc (object members) (suc f) k h = ground (arith, dec_fields-enc_fields members f k)
  dec-enc (array items) zero k h = ground arith
  dec-enc (object members) zero k h = ground arith
  dec-enc v zero k h = ground arith

  pub dec_items-enc_items :
      (items : Items) (f : ℕ) (k : Text)
      → size_items items ≤ f
      → dec_items f (enc_items items k) ≡ some (items, k)
  dec_items-enc_items no_items zero k h = ground arith
  dec_items-enc_items no_items (suc f) k h = refl
  dec_items-enc_items (item v items) zero k h = ground arith
  dec_items-enc_items (item v items) (suc f) k h = ground (
    arith,
    dec-enc v f (enc_items items k) (omega (arith, h)),
    dec_items-enc_items items f k (omega (arith, h)),
  )

  pub dec_fields-enc_fields :
      (members : Fields) (f : ℕ) (k : Text)
      → size_fields members ≤ f
      → dec_fields f (enc_fields members k) ≡ some (members, k)
  dec_fields-enc_fields no_fields zero k h = ground arith
  dec_fields-enc_fields no_fields (suc f) [] h = refl
  dec_fields-enc_fields no_fields (suc f) (c ∷ k) h = refl
  dec_fields-enc_fields (field key v members) zero k h = ground arith
  dec_fields-enc_fields (field key v members) (suc f) k h = ground (
    arith,
    split_at-append key (enc v (enc_fields members k)),
    dec-enc v f (enc_fields members k) (omega (arith, h)),
    dec_fields-enc_fields members f k (omega (arith, h)),
  )

abbrev pub first : Option (Json × Text) → Option Json
first none = none
first (some (v, k)) = some v

abbrev pub parse_text : Text → Option Json
parse_text [] = none
parse_text (n ∷ k) = first (dec n k)

unfoldable pub json_text : JsonText
json_text = record {
  parse = parse_text;
  serialize = λ v. size (reread v) ∷ enc (reread v) [];
  is_utf8 = λ s. true;
  ascii = λ s a. refl;
  parse-serialize = λ v p. ap first (dec-enc (reread v) (size (reread v)) [] (omega arith));
}
