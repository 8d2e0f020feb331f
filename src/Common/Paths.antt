-- ===== src/Common/Paths.antt =====
-- common/path_sanitizer.cpp: `RelativePath::parse`. `from_local` and `under` are std::filesystem's.
pub mod Safety
use ot_sec_file_transfer.Base.{
  ℕ, ◌+◌, Bool, true, false, not, ◌&&◌, ◌||◌, List, [], ◌∷◌, ◌++◌, if◌then◌else◌, Text, codes, same,
  ltb, leb, ◌==◌, length, is_empty, Result, Void, ok, err, validation, ◌>>=◌, ◌>>◌, fail_if,
}

abbrev pub max_path_bytes : ℕ
max_path_bytes = 4096

abbrev pub max_component_bytes : ℕ
max_component_bytes = 255

unfoldable pub is_forbidden_char : ℕ → Bool
is_forbidden_char c = ltb c 0x20 || c == 0x7f || c == b'\\' || c == b':'

abbrev pub starts_with_slash : Text → Bool
starts_with_slash [] = false
starts_with_slash (c ∷ raw) = c == b'/'

unfoldable pub check_bytes : Text → Void
check_bytes [] = ok tt
check_bytes (c ∷ raw) = fail_if (is_forbidden_char c) validation >> check_bytes raw

unfoldable pub check_part : Text → Void
check_part part = do
  fail_if (is_empty part) validation
  fail_if (same part (b'.' ∷ []) || same part (b'.' ∷ b'.' ∷ [])) validation
  fail_if (ltb max_component_bytes (length part)) validation

-- The `while` loop: `part` is what stands between `start` and the position read.
unfoldable pub check_parts : Text → Text → Void
check_parts part [] = check_part part
check_parts part (c ∷ raw) =
    let next = check_part part >> check_parts [] raw in
    let longer = check_parts (part ++ c ∷ []) raw in if c == b'/' then next else longer

unfoldable pub parse : Text → Result Text
parse raw = do
  fail_if (is_empty raw) validation
  fail_if (ltb max_path_bytes (length raw)) validation
  fail_if (starts_with_slash raw) validation
  check_bytes raw
  check_parts [] raw
  ok raw
