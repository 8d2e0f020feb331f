-- ===== src/Common/Paths/Safety.antt =====
-- `parse` accepts exactly the texts that are components joined by single slashes, each of them a
-- plain file name, and never changes the text.
use mathlib.Core.List.{append_assoc, append-nil}
use ot_sec_file_transfer.Base.{
  ℕ, ◌≤◌, ◌≡◌, ◌≢◌, ◌↔◌, inl, inr, refl, sym, ap, ◌∙◌, false, List, [], ◌∷◌, ◌++◌, arith, Text,
  same_iff, ◌==◌, length, is_empty, Every, ok, Bool-cases,
}
use ot_sec_file_transfer.Common.Paths.{
  max_path_bytes, max_component_bytes, is_forbidden_char, starts_with_slash, check_bytes,
  check_part, check_parts, parse,
}

-- The bytes that may stand in a path.
abbrev pub IsAllowed : ℕ → Type 0
IsAllowed c = (0x20 ≤ c) × (c ≢ 0x7f) × (c ≢ b'\\') × (c ≢ b':')

abbrev pub dot : Text
dot = b'.' ∷ []

abbrev pub dot_dot : Text
dot_dot = b'.' ∷ b'.' ∷ []

-- A component: a name of 1 to 255 bytes that is neither "." nor "..", and has no slash.
pub record IsComponent (part : Text) : Type 0 where
  pub nonempty : part ≢ []
  pub not_dot : part ≢ dot
  pub not_dot_dot : part ≢ dot_dot
  pub short : length part ≤ max_component_bytes

abbrev pub HasNoSlash : Text → Type 0
HasNoSlash = Every (λ c. c ≢ b'/')

abbrev pub join : Text → List Text → Text
join part [] = part
join part (next ∷ parts) = part ++ b'/' ∷ join next parts

-- The path is its components, joined by single slashes.
pub record IsSafe (raw : Text) : Type 0 where
  pub short : length raw ≤ max_path_bytes
  pub allowed : Every IsAllowed raw
  pub first : Text
  pub others : List Text
  pub joined : raw ≡ join first others
  pub first_component : IsComponent first × HasNoSlash first
  pub components : Every (λ part. IsComponent part × HasNoSlash part) others

check_part_iff : (part : Text) → (check_part part ≡ ok tt) ↔ IsComponent part
unfolding check_part
check_part_iff part = (
  λ h. ground (arith, same_iff part dot, same_iff part dot_dot),
  λ c. ground (arith, same_iff part dot, same_iff part dot_dot),
)

check_bytes_iff : (raw : Text) → (check_bytes raw ≡ ok tt) ↔ Every IsAllowed raw
unfolding check_bytes is_forbidden_char
check_bytes_iff [] = (λ h. tt, λ h. refl)
check_bytes_iff (c ∷ raw) =
    (λ h. ground (arith, (check_bytes_iff raw).0), λ h. ground (arith, (check_bytes_iff raw).1 h.1))

-- Reading a name without a slash lengthens the part.
check_parts-append :
    (part more raw : Text)
    → HasNoSlash more
    → check_parts part (more ++ raw) ≡ check_parts (part ++ more) raw
unfolding check_parts
check_parts-append part [] raw h = rw append-nil
check_parts-append part (c ∷ more) raw h =
    ground
      (arith, check_parts-append (part ++ c ∷ []) more raw h.1, append_assoc part (c ∷ []) more)

check_parts-join :
    (first : Text) (others : List Text)
    → IsComponent first × HasNoSlash first
    → Every (λ part. IsComponent part × HasNoSlash part) others
    → check_parts [] (join first others) ≡ ok tt
unfolding check_parts
check_parts-join first [] h k =
    ap (check_parts []) (sym (append-nil first))
    ∙ check_parts-append [] first [] h.1
    ∙ (check_part_iff first).1 h.0
check_parts-join first (next ∷ others) h k =
    check_parts-append [] first (b'/' ∷ join next others) h.1
    ∙ ground (arith, (check_part_iff first).1 h.0, check_parts-join next others k.0 k.1)

HasNoSlash-append : (a b : Text) → HasNoSlash a → HasNoSlash b → HasNoSlash (a ++ b)
HasNoSlash-append [] b h k = k
HasNoSlash-append (c ∷ a) b h k = (h.0, HasNoSlash-append a b h.1 k)

-- The parts that the loop has accepted.
abbrev Parts : Text → Type 0
Parts raw =
    (first : Text) × (others : List Text) × (raw ≡ join first others)
    × (IsComponent first × HasNoSlash first)
    × Every (λ part. IsComponent part × HasNoSlash part) others

check_parts_sound :
    (part raw : Text) → check_parts part raw ≡ ok tt → HasNoSlash part → Parts (part ++ raw)
unfolding check_parts
check_parts_sound part [] h slashless =
    (part, [], append-nil part, ((check_part_iff part).0 h, slashless), tt)
check_parts_sound part (c ∷ raw) h slashless = elim (Bool-cases (c == b'/')) [
  | inl slash ↦
      let here : check_part part ≡ ok tt = ground arith in
      let there : check_parts [] raw ≡ ok tt = ground arith in
      let (first, others, e, k, ks) = check_parts_sound [] raw there tt in
      let c_eq : c ≡ b'/' = ground arith in
      (part, first ∷ others, rw (c_eq, e), ((check_part_iff part).0 here, slashless), (k, ks))
  | inr plain ↦
      let there : check_parts (part ++ c ∷ []) raw ≡ ok tt = ground arith in
      let slashless' = HasNoSlash-append part (c ∷ []) slashless (ground arith, tt) in
      rw append_assoc at (check_parts_sound (part ++ c ∷ []) raw there slashless')
]

starts_with_slash-join :
    (first : Text) (others : List Text)
    → IsComponent first × HasNoSlash first
    → (starts_with_slash (join first others) ≡ false) × (is_empty (join first others) ≡ false)
starts_with_slash-join [] others h = absurd (h.0.nonempty refl)
starts_with_slash-join (c ∷ first) [] h = ground arith
starts_with_slash-join (c ∷ first) (next ∷ others) h = ground arith

-- `parse` accepts a text exactly if it is safe, and gives it back unchanged: at most 4096 bytes, no
-- forbidden byte, and components that are no "", "." or "..", of at most 255 bytes, joined by
-- single slashes.
pub parse_iff : (raw path : Text) → (parse raw ≡ ok path) ↔ ((path ≡ raw) × IsSafe raw)
unfolding parse
parse_iff raw path = (forth, back)
  where
    forth : parse raw ≡ ok path → (path ≡ raw) × IsSafe raw
    forth h =
        let parts : check_parts [] raw ≡ ok tt = ground arith in
        let bytes : check_bytes raw ≡ ok tt = ground arith in
        let (first, others, e, k, ks) = check_parts_sound [] raw parts tt in
        (
          ground arith,
          record {
            short = ground arith;
            allowed = (check_bytes_iff raw).0 bytes;
            first = first;
            others = others;
            joined = e;
            first_component = k;
            components = ks;
          },
        )

    back : (path ≡ raw) × IsSafe raw → parse raw ≡ ok path
    back (same_text, safe) =
        let parts = check_parts-join safe.first safe.others safe.first_component safe.components in
        let start = starts_with_slash-join safe.first safe.others safe.first_component in
        let parts' : check_parts [] raw ≡ ok tt = rw safe.joined parts in
        let start' : (starts_with_slash raw ≡ false) × (is_empty raw ≡ false) =
          rw safe.joined start in
        let bytes = (check_bytes_iff raw).1 safe.allowed in
        let short = safe.short in rw same_text (ground arith)
