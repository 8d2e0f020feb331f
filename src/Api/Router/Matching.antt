-- ===== src/Api/Router/Matching.antt =====
-- Which route answers a request, and which error the caller gets when none does.
use mathlib.Core.Path.{subst, sym}
use ot_sec_file_transfer.Base.{
  ℕ, ◌≡◌, ◌≢◌, ◌⊎◌, inl, inr, refl, ap, Bool, true, false, List, [], ◌∷◌, ◌++◌, none, some, arith,
  Text, Dict, ◌==◌, Every, Result, ok, err, ErrCode, validation, conflict, notfound, ◌>>=◌, is_ok,
  Bool-cases, Option-cases, Result-cases, is_empty, put,
}
use ot_sec_file_transfer.Api.Urls.{url_decode, escaped_byte, prepend}
use ot_sec_file_transfer.Api.Router.{
  Entry, Match, match_segments, decode_all, parse_pairs, parse_query, select, split_on,
  before_first, after_first, or_empty, match, split_path, front_is,
}

-- A result whose only error is `validation`.
abbrev OnlyInvalid : {A : Type 0} → Result A → Type 0
OnlyInvalid {A} r = (e : ErrCode) → r ≡ err e → e ≡ validation

module _ {A B : Type 0} where
  OnlyInvalid-bind :
      (r : Result A) (rest : A → Result B)
      → OnlyInvalid r
      → ((a : A) → OnlyInvalid (rest a))
      → OnlyInvalid (r >>= rest)
  OnlyInvalid-bind (ok a) rest h k e p = k a e p
  OnlyInvalid-bind (err code) rest h k e p = cc (h code refl)

  answered-OnlyInvalid :
      (r : Result A) (f : A → B) → OnlyInvalid r → OnlyInvalid (r >>= λ a. ok (f a))
  answered-OnlyInvalid (ok a) f h e p = cc
  answered-OnlyInvalid (err code) f h e p = cc (h code refl)

  failed-OnlyInvalid :
      (r : Result A) (rest : A → Result B)
      → OnlyInvalid r
      → is_ok r ≡ false
      → (code : ErrCode) → (r >>= rest) ≡ err code
      → code ≡ validation
  failed-OnlyInvalid (ok a) rest h bad e p = cc
  failed-OnlyInvalid (err code) rest h bad e p = cc (h code refl)

escaped_byte-OnlyInvalid : (x y : ℕ) → OnlyInvalid (escaped_byte x y)
unfolding escaped_byte
escaped_byte-OnlyInvalid x y e p = ground arith

prepend-OnlyInvalid : (c : ℕ) (r : Result Text) → OnlyInvalid r → OnlyInvalid (prepend c r)
prepend-OnlyInvalid c (ok text) h e p = cc
prepend-OnlyInvalid c (err code) h e p = cc (h code refl)

url_decode-OnlyInvalid : (text : Text) → OnlyInvalid (url_decode text)
unfolding url_decode
url_decode-OnlyInvalid [] e p = cc
url_decode-OnlyInvalid (c ∷ []) e p = ground arith
url_decode-OnlyInvalid (c ∷ x ∷ []) e p = ground arith
url_decode-OnlyInvalid (c ∷ x ∷ y ∷ text) e p = elim (Bool-cases (c == b'%')) [
  | inl escape ↦
      OnlyInvalid-bind (escaped_byte x y) _ (escaped_byte-OnlyInvalid x y)
        (λ byte. prepend-OnlyInvalid byte (url_decode text) (url_decode-OnlyInvalid text)) e
        (rw escape at p)
  | inr plain ↦
      prepend-OnlyInvalid c (url_decode (x ∷ y ∷ text)) (url_decode-OnlyInvalid (x ∷ y ∷ text)) e
        (rw plain at p)
]

parse_pairs-OnlyInvalid :
    (pairs : List Text) (out : Dict Text) → OnlyInvalid (parse_pairs pairs out)
unfolding parse_pairs
parse_pairs-OnlyInvalid [] out e p = cc
parse_pairs-OnlyInvalid (pair ∷ pairs) out e p = elim (Bool-cases (is_empty pair)) [
  | inl skipped ↦ parse_pairs-OnlyInvalid pairs out e (ground arith)
  | inr kept ↦
      OnlyInvalid-bind (url_decode (before_first b'=' pair)) _
        (url_decode-OnlyInvalid (before_first b'=' pair))
        (λ key.
          OnlyInvalid-bind (url_decode (or_empty (after_first b'=' pair))) _
            (url_decode-OnlyInvalid (or_empty (after_first b'=' pair)))
            (λ value. parse_pairs-OnlyInvalid pairs (put key value out)))
        e (rw kept at p)
]

decode_all-OnlyInvalid : (segments : List Text) → OnlyInvalid (decode_all segments)
unfolding decode_all
decode_all-OnlyInvalid [] = λ e p. cc
decode_all-OnlyInvalid (raw ∷ segments) =
    OnlyInvalid-bind (url_decode raw) _ (url_decode-OnlyInvalid raw)
      (λ s. answered-OnlyInvalid (decode_all segments) _ (decode_all-OnlyInvalid segments))

parse_query-OnlyInvalid : (query : Text) → OnlyInvalid (parse_query query)
unfolding parse_query
parse_query-OnlyInvalid query = parse_pairs-OnlyInvalid (split_on b'&' [] query) []

module _ {H : Type 0} (method : ℕ) (segments : List Text) (query : Text) where
  abbrev pub DoesNotFit : Entry H → Type 0
  DoesNotFit e = match_segments e.segments segments [] ≡ none

  -- The entry does not answer: its pattern does not fit, or its method is another.
  abbrev pub Passes : Entry H → Type 0
  Passes e = DoesNotFit e ⊎ (e.route.method ≢ method)

  -- The entry that answers, and the entries that were registered before it.
  pub record Answers (entries : List (Entry H)) (m : Match H) : Type 0 where
    pub before : List (Entry H)
    pub entry : Entry H
    pub after : List (Entry H)
    pub split : entries ≡ before ++ entry ∷ after
    pub passed : Every Passes before
    pub method_is : entry.route.method ≡ method
    pub route_is : m.route ≡ entry.route
    pub params_are : match_segments entry.segments segments [] ≡ some m.params
    pub query_is : parse_query query ≡ ok m.query

  Answers-cons :
      (e : Entry H) (entries : List (Entry H)) (m : Match H)
      → Passes e
      → Answers entries m
      → Answers (e ∷ entries) m
  Answers-cons e entries m passes a = record {
    before = e ∷ a.before;
    entry = a.entry;
    after = a.after;
    split = ap (◌∷◌ e) a.split;
    passed = (passes, a.passed);
    method_is = a.method_is;
    route_is = a.route_is;
    params_are = a.params_are;
    query_is = a.query_is;
  }

  select-Answers :
      (matched : Bool) (entries : List (Entry H)) (m : Match H)
      → select method segments query matched entries ≡ ok m
      → Answers entries m
  unfolding select
  select-Answers matched [] m h = ground arith
  select-Answers matched (e ∷ entries) m h =
      elim (Option-cases (match_segments e.segments segments [])) [
        | inl missed ↦
            Answers-cons e entries m (inl missed) (select-Answers matched entries m (ground arith))
        | inr (params, fits) ↦ elim (Bool-cases (e.route.method == method)) [
          | inl hit ↦ elim (Result-cases (parse_query query)) [
            | inl bad ↦ ground arith
            | inr (q, parsed) ↦
                let shape : m ≡ record { route = e.route; params = params; query = q } =
                  ground arith in
                record {
                  before = [];
                  entry = e;
                  after = entries;
                  split = refl;
                  passed = tt;
                  method_is = ground arith;
                  route_is = ground arith;
                  params_are = ground arith;
                  query_is = ground arith;
                }
          ]
          | inr other ↦
              Answers-cons e entries m (inr (ground arith))
                (select-Answers true entries m (ground arith))
        ]
      ]

  -- What an error says about the routes; `matched` is the flag before these entries.
  abbrev pub Explains : Bool → List (Entry H) → ErrCode → Type 0
  Explains matched entries notfound = (matched ≡ false) × Every DoesNotFit entries
  Explains matched entries conflict =
      Every Passes entries × ((matched ≡ true) ⊎ (¬ Every DoesNotFit entries))
  Explains matched entries validation = Unit {0}
  Explains matched entries _ = ⊥

  Explains-missed :
      (matched : Bool) (e : Entry H) (entries : List (Entry H)) (code : ErrCode)
      → DoesNotFit e
      → Explains matched entries code
      → Explains matched (e ∷ entries) code
  Explains-missed matched e entries notfound h x = (x.0, (h, x.1))
  Explains-missed matched e entries conflict h x =
      ((inl h, x.0), elim x.1 [ inl t ↦ inl t | inr n ↦ inr (λ all. n all.1) ])
  Explains-missed matched e entries validation h x = tt
  Explains-missed matched e entries _ h x = x

  Explains-other :
      (matched : Bool) (e : Entry H) (entries : List (Entry H)) (code : ErrCode)
      → (¬ DoesNotFit e)
      → e.route.method ≢ method
      → Explains true entries code
      → Explains matched (e ∷ entries) code
  Explains-other matched e entries notfound h k x = cc x.0
  Explains-other matched e entries conflict h k x = ((inr k, x.0), inr (λ all. h all.0))
  Explains-other matched e entries validation h k x = tt
  Explains-other matched e entries _ h k x = x

  select-Explains :
      (matched : Bool) (entries : List (Entry H)) (code : ErrCode)
      → select method segments query matched entries ≡ err code
      → Explains matched entries code
  unfolding select
  select-Explains true [] code h =
      let is : conflict ≡ code = ground arith in subst (Explains true []) is (tt, inl refl)
  select-Explains false [] code h =
      let is : notfound ≡ code = ground arith in subst (Explains false []) is (refl, tt)
  select-Explains matched (e ∷ entries) code h =
      elim (Option-cases (match_segments e.segments segments [])) [
        | inl missed ↦
            Explains-missed matched e entries code missed
              (select-Explains matched entries code (ground arith))
        | inr (params, fits) ↦ elim (Bool-cases (e.route.method == method)) [
          | inl hit ↦
              let answer : Dict Text → Match H =
                λ q. record { route = e.route; params = params; query = q } in
              let invalid =
                answered-OnlyInvalid (parse_query query) answer (parse_query-OnlyInvalid query) code
                  (ground arith) in
              subst (Explains matched (e ∷ entries)) (sym invalid) tt
          | inr other ↦
              Explains-other matched e entries code (λ n. ground arith) (ground arith)
                (select-Explains true entries code (ground arith))
        ]
      ]

module _ {H : Type 0} (method : ℕ) (target : Text) (entries : List (Entry H)) where
  abbrev pub segments_of : Result (List Text)
  segments_of = decode_all (split_path (before_first b'?' target))

  abbrev pub query_of : Text
  query_of = or_empty (after_first b'?' target)

  -- A request is answered by the first entry registered whose pattern fits the decoded segments of
  -- the path and whose method is that of the request, with the parameters that the pattern
  -- captures and the decoded query.
  pub match-Answers :
      (m : Match H)
      → match method target entries ≡ ok m
      → (segments : List Text) × (segments_of ≡ ok segments)
        × Answers method segments query_of entries m
  unfolding match
  match-Answers m h = elim (Result-cases segments_of) [
    | inl bad ↦ ground arith
    | inr (segments, decoded) ↦
        (segments, decoded, select-Answers method segments query_of false entries m (ground arith))
  ]

  -- A request fails with `notfound` only if no pattern fits its path, with `conflict` only if some
  -- pattern fits and none of those has its method, and with `validation` otherwise.
  pub match-Explains :
      (code : ErrCode)
      → match method target entries ≡ err code
      → (code ≡ validation)
        ⊎ ((segments : List Text) × (segments_of ≡ ok segments)
            × Explains method segments query_of false entries code)
  unfolding match
  match-Explains code h = elim (Result-cases segments_of) [
    | inl bad ↦ elim (Bool-cases (front_is b'/' (before_first b'?' target))) [
      | inl rooted ↦ inl (
          failed-OnlyInvalid segments_of _
            (decode_all-OnlyInvalid (split_path (before_first b'?' target))) bad code
            (rw rooted at h))
      | inr unrooted ↦ inl (ground arith)
    ]
    | inr (segments, decoded) ↦ elim (Bool-cases (front_is b'/' (before_first b'?' target))) [
      | inl rooted ↦ inr (
        segments,
        decoded,
        select-Explains method segments query_of false entries code (ground arith),
      )
      | inr unrooted ↦ inl (ground arith)
    ]
  ]
