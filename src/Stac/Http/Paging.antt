-- ===== src/Stac/Http/Paging.antt =====
-- Following the cursors of a search from its first page on.
use feather_mesh.Prelude.{
  ℕ, zero, suc, ◌+◌, ◌≤◌, ◌<◌, ◌≡◌, refl, ap, sym, ◌∙◌, true, Option, none, some, List, [], ◌∷◌,
  ◌++◌, map, arith, All, Text, text_eq, text_eq_refl, codes, lookup, insert, lookup-insert, length,
  length-drop, take, drop, Bool-cases, inl, inr, ok, err, ◌>>=◌, ltb, ◌==◌, not, ◌||◌,
  if◌then◌else◌,
}
use feather_mesh.Stac.Search.{Bbox, StacItem, search}
use feather_mesh.Stac.Http.{
  Web, Cursor, Parameters, HttpResult, panicked, encode_cursor, decode_cursor, bbox_parameter,
  limit_parameter, offset_parameter, check_cursor, option_eq, snapshot_of, cursor_at, next_query,
  page_at, search_response,
}
use feather_mesh.Stac.Http.Decoding.{hex_decode-hex_encode}

decode_cursor-encode_cursor :
    (x : Web) (c : Cursor)
    → All (λ b. b < 256) (x.encode_json c)
    → x.decode_json (x.encode_json c) ≡ some c
    → decode_cursor x (encode_cursor x c) ≡ ok c
unfolding decode_cursor encode_cursor
decode_cursor-encode_cursor x c bytes read_back =
    rw (hex_decode-hex_encode (x.encode_json c) bytes, read_back)

option_eq_refl : (o : Option Text) → option_eq o o ≡ true
option_eq_refl none = refl
option_eq_refl (some s) = text_eq_refl s

drop-past {ℓ} : {A : Type ℓ} (n : ℕ) (xs : List A) → length xs ≤ n → drop n xs ≡ []
drop-past zero [] h = refl
drop-past zero (x ∷ xs) h = absurd (omega arith)
drop-past (suc n) [] h = refl
drop-past (suc n) (x ∷ xs) h = drop-past n xs (omega arith)

module _ {ℓ κ} {A : Type ℓ} {B : Type κ} (f : A → B) where
  take-rest :
      (n : ℕ) (xs : List A)
      → map f (take n xs) ++ map f (drop (length (map f (take n xs))) xs) ≡ map f xs
  take-rest zero xs = refl
  take-rest (suc n) [] = refl
  take-rest (suc n) (x ∷ xs) = ap (λ t. f x ∷ t) (take-rest n xs)

  take-positive : (n : ℕ) (xs : List A) → 0 < n → 0 < length xs → 0 < length (map f (take n xs))
  take-positive zero xs h k = absurd (omega arith)
  take-positive (suc n) [] h k = absurd (omega arith)
  take-positive (suc n) (x ∷ xs) h k = omega arith

drop-nil {ℓ} : {A : Type ℓ} (n : ℕ) → drop {A = A} n [] ≡ []
drop-nil zero = refl
drop-nil (suc n) = refl

drop-drop {ℓ} : {A : Type ℓ} (o k : ℕ) (xs : List A) → drop (o + k) xs ≡ drop k (drop o xs)
drop-drop zero k xs = let e : zero + k ≡ k = omega arith in ap (λ n. drop n xs) e
drop-drop (suc o) k [] = drop-nil (suc o + k) ∙ sym (drop-nil k)
drop-drop (suc o) k (x ∷ xs) =
    let e : suc o + k ≡ suc (o + k) = omega arith in ap (λ n. drop n (x ∷ xs)) e ∙ drop-drop o k xs

module _ {V : Type 0} (x : Web) (all : List (StacItem V)) (parameters : Parameters)
    (bbox : Option Bbox) (limit : ℕ) where
  abbrev pub matched : List (StacItem V)
  matched =
      search x.parse_rfc3339 all (lookup (codes "collections") parameters) bbox
        (lookup (codes "datetime") parameters)

  abbrev features_of : List (StacItem V) → List V
  features_of items = map (λ item. item.value) items

  abbrev snapshot : Text
  snapshot = snapshot_of all

  -- The request that a cursor makes: the same parameters, and the cursor.
  abbrev pub with_cursor : Cursor → Parameters
  with_cursor c = insert (codes "cursor") (encode_cursor x c) parameters

  -- A client that follows at most `fuel` next links.
  unfoldable pub following : ℕ → Option (Cursor × Text) → HttpResult (List V)
  following fuel none = ok []
  following zero (some link) = err panicked
  following (suc fuel) (some (c, query)) = do
    page ← search_response x (ok all) (with_cursor c)
    more ← following fuel page.next
    ok (page.features ++ more)

  -- The features of the first page and of those that follow it.
  unfoldable pub all_pages : ℕ → HttpResult (List V)
  unfolding following
  all_pages fuel = do
    page ← search_response x (ok all) parameters
    more ← following fuel page.next
    ok (page.features ++ more)

  -- The parameters ask for pages of a permitted size.
  pub record IsQuery : Type 0 where
    pub boxed : bbox_parameter x (lookup (codes "bbox") parameters) ≡ ok bbox
    pub limited : limit_parameter (lookup (codes "limit") parameters) ≡ ok limit
    pub positive : 0 < limit
    pub small : limit ≤ 1000

  -- Parameters that ask the same query.
  record SameQuery (p : Parameters) : Type 0 where
    same_collections : lookup (codes "collections") p ≡ lookup (codes "collections") parameters
    same_bbox : lookup (codes "bbox") p ≡ lookup (codes "bbox") parameters
    same_datetime : lookup (codes "datetime") p ≡ lookup (codes "datetime") parameters
    same_limit : lookup (codes "limit") p ≡ lookup (codes "limit") parameters

  permitted : IsQuery → not (limit == 0 || ltb 1000 limit) ≡ true
  permitted q = let (a, b) : (0 < limit) × (limit ≤ 1000) = (q.positive, q.small) in ground arith

  response_at :
      (p : Parameters) (o : ℕ)
      → IsQuery
      → SameQuery p
      → offset_parameter x p snapshot (lookup (codes "cursor") p) ≡ ok o
      → not (ltb (length (matched)) o) ≡ true
      → search_response x (ok all) p ≡ ok (page_at x parameters limit snapshot (matched) o)
  unfolding search_response page_at cursor_at
  response_at p o q s offset inside = rw (
    s.same_collections,
    s.same_bbox,
    s.same_datetime,
    s.same_limit,
    q.boxed,
    q.limited,
    permitted q,
    offset,
    inside,
  )

  -- serde_json writes the cursors of this query as bytes, and reads them back.
  pub record CursorCodec : Type 0 where
    pub bytes : (o : ℕ) → All (λ b. b < 256) (x.encode_json (cursor_at parameters snapshot o))
    pub read_back :
        (o : ℕ)
        → x.decode_json (x.encode_json (cursor_at parameters snapshot o))
          ≡ some (cursor_at parameters snapshot o)

  first_response :
      IsQuery
      → lookup (codes "cursor") parameters ≡ none
      → search_response x (ok all) parameters ≡ ok (page_at x parameters limit snapshot (matched) 0)
  unfolding offset_parameter
  first_response q fresh =
      response_at parameters 0 q
        (record {
          same_collections = refl;
          same_bbox = refl;
          same_datetime = refl;
          same_limit = refl;
        })
        (rw fresh) (ground arith)

  same_query : (c : Cursor) → SameQuery (with_cursor c)
  unfolding text_eq
  same_query c =
      let kept =
        λ (key : Text). lookup-insert (codes "cursor") key (encode_cursor x c) parameters in
      record {
        same_collections = kept (codes "collections");
        same_bbox = kept (codes "bbox");
        same_datetime = kept (codes "datetime");
        same_limit = kept (codes "limit");
      }

  own_offset :
      (o : ℕ)
      → CursorCodec
      → offset_parameter x
          (with_cursor (cursor_at parameters snapshot o))
          snapshot
          (lookup (codes "cursor") (with_cursor (cursor_at parameters snapshot o)))
        ≡ ok o
  unfolding offset_parameter check_cursor cursor_at text_eq
  own_offset o codec =
      let c = cursor_at parameters snapshot o in
      let s = same_query c in
      rw (
        lookup-insert (codes "cursor") (codes "cursor") (encode_cursor x c) parameters,
        decode_cursor-encode_cursor x c (codec.bytes o) (codec.read_back o),
        s.same_collections,
        s.same_bbox,
        s.same_datetime,
        text_eq_refl snapshot,
        option_eq_refl (lookup (codes "collections") parameters),
        option_eq_refl (lookup (codes "bbox") parameters),
        option_eq_refl (lookup (codes "datetime") parameters),
      )

  next_response :
      (o : ℕ)
      → IsQuery
      → CursorCodec
      → o < length (matched)
      → search_response x (ok all) (with_cursor (cursor_at parameters snapshot o))
        ≡ ok (page_at x parameters limit snapshot (matched) o)
  next_response o q codec h =
      let c = cursor_at parameters snapshot o in
      response_at (with_cursor c) o q (same_query c) (own_offset o codec) (ground arith)

  abbrev link : ℕ → Option (Cursor × Text)
  link o =
      let c = cursor_at parameters snapshot o in
      if ltb o (length (matched)) then some (c, next_query x c limit) else none

  abbrev page : ℕ → List V
  page o = features_of (take limit (drop o (matched)))

  page_at-next :
      (o : ℕ) → (page_at x parameters limit snapshot (matched) o).next ≡ link (o + length (page o))
  unfolding page_at
  page_at-next o = refl

  page_at-features : (o : ℕ) → (page_at x parameters limit snapshot (matched) o).features ≡ page o
  unfolding page_at
  page_at-features o = refl

  page-rest :
      (o : ℕ)
      → page o ++ features_of (drop (o + length (page o)) (matched))
        ≡ features_of (drop o (matched))
  page-rest o =
      rw (drop-drop o (length (page o)) (matched))
        (take-rest (λ (item : StacItem V). item.value) limit (drop o (matched)))

  page-advances : (o : ℕ) → IsQuery → o < length (matched) → 0 < length (page o)
  page-advances o q h =
      take-positive (λ (item : StacItem V). item.value) limit (drop o (matched)) q.positive
        (omega (arith, length-drop o (matched)))

  following-rest :
      (fuel o : ℕ)
      → IsQuery
      → CursorCodec
      → length (matched) ≤ o + fuel
      → following fuel (link o) ≡ ok (features_of (drop o (matched)))
  unfolding following
  following-rest zero o q codec h = rw (drop-past o (matched) (omega arith)) (ground arith)
  following-rest (suc fuel) o q codec h = elim (Bool-cases (ltb o (length (matched)))) [
    | inl more ↦ rw (
      more,
      next_response o q codec (ground arith),
      page_at-next o,
      page_at-features o,
      following-rest fuel (o + length (page o)) q codec
          (omega (arith, page-advances o q (ground arith))),
      page-rest o,
    )
    | inr done ↦ rw (done, drop-past o (matched) (ground arith))
  ]

  -- A client that follows the cursors gets every match, each once and in order, if the pages have a
  -- permitted size, the items and the other parameters stay the same, serde_json reads back the cursors,
  -- and the client may follow as many links as there are matches.
  pub all_pages-matched :
      (fuel : ℕ)
      → IsQuery
      → CursorCodec
      → lookup (codes "cursor") parameters ≡ none
      → length (matched) ≤ fuel
      → all_pages fuel ≡ ok (features_of (matched))
  unfolding all_pages
  all_pages-matched fuel q codec fresh enough = rw (
    first_response q fresh,
    page_at-next 0,
    page_at-features 0,
    following-rest fuel (0 + length (page 0)) q codec (omega arith),
    page-rest 0,
  )
