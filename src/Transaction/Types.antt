-- ===== src/Transaction/Types.antt =====
-- transaction/transaction.hpp and transaction.cpp: states, file entries, transactions, comments.
-- A `TransactionId`, a `RelativePath` and a name are the bytes of their text; a digest is its bytes;
-- a `Timestamp` is a number of seconds, see Common/Times. `uint64_t` sums wrap.
use ot_sec_file_transfer.Base.{
  ℕ, ◌+◌, ◌/◌, ◌%◌, ◌^◌, Bool, true, false, ◌||◌, List, [], ◌∷◌, Option, ltb, ◌==◌, if◌then◌else◌,
  Text, codes, same, Result, ok, err, Void, validation, fail_if, ◌>>=◌,
}

pub data State : Type 0 where
  open_ committed delivered expired : State

abbrev pub same_state : State → State → Bool
same_state open_ open_ = true
same_state committed committed = true
same_state delivered delivered = true
same_state expired expired = true
same_state _ _ = false

unfoldable pub to_string : State → Text
to_string open_ = codes "open"
to_string committed = codes "committed"
to_string delivered = codes "delivered"
to_string expired = codes "expired"

parse_state_from : Text → List State → Result State
parse_state_from text [] = err validation
parse_state_from text (s ∷ rest) =
    if same text (to_string s) then ok s else parse_state_from text rest

unfoldable pub parse_state : Text → Result State
unfolding parse_state_from
parse_state text = parse_state_from text (open_ ∷ committed ∷ delivered ∷ expired ∷ [])

pub record FileEntry : Type 0 where
  pub path : Text
  pub size : ℕ
  pub sha256 : List ℕ

pub record Transaction : Type 0 where
  pub id : Text
  pub sender : Text
  pub target_user : Text
  pub target_server : Text
  pub origin_server : Text
  pub comment : Text
  pub state : State
  pub created_at : ℕ
  pub expires_at : ℕ
  pub committed_at : Option ℕ
  pub delivered_at : Option ℕ
  pub files : List FileEntry

-- The `for` loop of `check_comment`, on the code points counted so far. Bytes `10xxxxxx` continue
-- a code point: `(c & 0xC0) != 0x80` says that the two high bits are not 2.
comment_length : Text → ℕ → Result ℕ
comment_length [] length = ok length
comment_length (c ∷ comment) length =
    let rest = comment_length comment (if c / 64 == 2 then length else length + 1) in
    if ltb c 0x20 || c == 0x7f then err validation else rest

unfoldable pub check_comment : Text → ℕ → Void
unfolding comment_length
check_comment comment max_length = do
  length ← comment_length comment 0
  fail_if (ltb max_length length) validation

total_from : ℕ → List FileEntry → ℕ
total_from sum [] = sum
total_from sum (f ∷ files) = total_from ((sum + f.size) % 2 ^ 64) files

unfoldable pub total_bytes : Transaction → ℕ
unfolding total_from
total_bytes tx = total_from 0 tx.files
