-- ===== src/Api/Router.antt =====
-- api/router.hpp and router.cpp: route patterns, `Router::add` and `Router::match`. A handler is an
-- abstract value; an HTTP verb is its number.
pub mod Matching
use ot_sec_file_transfer.Base.{
  before_first, after_first, ℕ, Bool, true, false, not, ◌&&◌, ◌||◌, List, [], ◌∷◌, ◌++◌, Option,
  none, some, if◌then◌else◌, Text, Dict, lookup, put, same, codes, ltb, ◌==◌, length, is_empty,
  Result, Void, ok, err, internal, validation, conflict, notfound, ◌>>=◌, ◌>>◌, fail_if,
}
use ot_sec_file_transfer.Api.Urls.{url_decode}

pub data Access : Type 0 where
  user password peer admin admin_password : Access

pub record Route (H : Type 0) : Type 0 where
  pub method : ℕ
  pub pattern : Text
  pub access : Access
  pub handler : Option H

pub record Segment : Type 0 where
  pub text : Text
  pub is_param : Bool
  pub is_rest : Bool

pub record Entry (H : Type 0) : Type 0 where
  pub route : Route H
  pub segments : List Segment

-- The pieces between the separators: the `find` and `substr` loops of `split_path`.
unfoldable pub split_on : ℕ → Text → Text → List Text
split_on separator part [] = part ∷ []
split_on separator part (c ∷ text) =
    let next = part ∷ split_on separator [] text in
    let longer = split_on separator (part ++ c ∷ []) text in if c == separator then next else longer

-- `text` starts with '/', which `remove_prefix(1)` takes off.
unfoldable pub split_path : Text → List Text
split_path [] = []
split_path (slash ∷ text) = if is_empty text then [] else split_on b'/' [] text

abbrev pub front_is : ℕ → Text → Bool
front_is c [] = false
front_is c (x ∷ text) = x == c

abbrev pub back_is : ℕ → Text → Bool
back_is c [] = false
back_is c (x ∷ []) = x == c
back_is c (x ∷ y ∷ text) = back_is c (y ∷ text)

abbrev pub drop_back : Text → Text
drop_back [] = []
drop_back (x ∷ []) = []
drop_back (x ∷ y ∷ text) = x ∷ drop_back (y ∷ text)

abbrev pub drop_front : Text → Text
drop_front [] = []
drop_front (x ∷ text) = text

unfoldable pub has_param : Text → List Segment → Bool
has_param name [] = false
has_param name (s ∷ segments) = s.is_param && same s.text name || has_param name segments

-- The end of a round of the loop of `add`: the name without its star, unless it is taken.
unfoldable pub param_segment : List Segment → Text → Bool → Result Segment
param_segment before name rest = do
  fail_if (has_param name before) internal
  ok (record { text = name; is_param = true; is_rest = rest })

-- A round of the loop of `add`; `last` says that `i + 1 == parts.size()`.
unfoldable pub parse_segment : List Segment → Bool → Text → Result Segment
unfolding param_segment
parse_segment before last part = do
  fail_if (is_empty part) internal
  if not (front_is b'{' part)
      then ok (record { text = part; is_param = false; is_rest = false })
      else (do
        fail_if (ltb (length part) 3 || not (back_is b'}' part)) internal
        let name = drop_back (drop_front part)
        if back_is b'*' name
            then fail_if (is_empty (drop_back name) || not last) internal
              >> param_segment before (drop_back name) true
            else param_segment before name false)

unfoldable pub parse_segments : List Segment → List Text → Result (List Segment)
parse_segments before [] = ok before
parse_segments before (part ∷ parts) =
    parse_segment before (is_empty parts) part >>= λ s. parse_segments (before ++ s ∷ []) parts

abbrev pub emplace : Text → Text → Dict Text → Dict Text
emplace k v params = elim (lookup k params) [ none ↦ put k v params | some _ ↦ params ]

-- `rest` joined with the remaining segments.
unfoldable pub join_rest : Text → List Text → Text
join_rest rest [] = rest
join_rest rest (segment ∷ path) = join_rest (rest ++ b'/' ∷ segment) path

unfoldable pub match_segments : List Segment → List Text → Dict Text → Option (Dict Text)
match_segments [] [] params = some params
match_segments [] (part ∷ path) params = none
match_segments (seg ∷ pattern) [] params = none
match_segments (seg ∷ pattern) (part ∷ path) params =
    let capture = match_segments pattern path (emplace seg.text part params) in
    let literal = match_segments pattern path params in
    if seg.is_param && is_empty part
    then none
    else (if seg.is_rest
        then some (emplace seg.text (join_rest part path) params)
        else (if seg.is_param then capture else (if same seg.text part then literal else none)))

abbrev pub or_empty : Option Text → Text
or_empty none = []
or_empty (some text) = text

unfoldable pub decode_all : List Text → Result (List Text)
decode_all [] = ok []
decode_all (raw ∷ segments) = do s ← url_decode raw; others ← decode_all segments; ok (s ∷ others)

-- The `while` loop of `parse_query` over the pieces between the '&'s.
unfoldable pub parse_pairs : List Text → Dict Text → Result (Dict Text)
parse_pairs [] out = ok out
parse_pairs (pair ∷ pairs) out =
    let skipped = parse_pairs pairs out in
    let added = (do
      key ← url_decode (before_first b'=' pair)
      value ← url_decode (or_empty (after_first b'=' pair))
      parse_pairs pairs (put key value out)) in
    if is_empty pair then skipped else added

unfoldable pub parse_query : Text → Result (Dict Text)
unfolding split_on
parse_query text = parse_pairs (split_on b'&' [] text) []

pub record Match (H : Type 0) : Type 0 where
  pub route : Route H
  pub params : Dict Text
  pub query : Dict Text

module _ {H : Type 0} where
  unfoldable pub has_route : ℕ → Text → List (Entry H) → Bool
  has_route method pattern [] = false
  has_route method pattern (e ∷ entries) =
      e.route.method == method && same e.route.pattern pattern || has_route method pattern entries

  abbrev pub has_handler : Option H → Bool
  has_handler none = false
  has_handler (some _) = true

  unfoldable pub add : Route H → List (Entry H) → Result (List (Entry H))
  add route entries = do
    fail_if (not (front_is b'/' route.pattern)) internal
    fail_if (not (has_handler route.handler)) internal
    segments ← parse_segments [] (split_path route.pattern)
    fail_if (has_route route.method route.pattern entries) internal
    ok (entries ++ record { route = route; segments = segments } ∷ [])

  -- The loop of `match` over the entries.
  unfoldable pub select : ℕ → List Text → Text → Bool → List (Entry H) → Result (Match H)
  select method segments query path_matched [] = if path_matched then err conflict else err notfound
  select method segments query path_matched (e ∷ entries) =
      let missed = select method segments query path_matched entries in
      let other = select method segments query true entries in
      elim (match_segments e.segments segments []) [
        | none ↦ missed
        | some params ↦
            if e.route.method == method
            then parse_query query
              >>= (λ q. ok (record { route = e.route; params = params; query = q }))
            else other
      ]

  unfoldable pub match : ℕ → Text → List (Entry H) → Result (Match H)
  unfolding select
  match method target entries = do
    let path = before_first b'?' target
    fail_if (not (front_is b'/' path)) validation
    segments ← decode_all (split_path path)
    select method segments (or_empty (after_first b'?' target)) false entries
