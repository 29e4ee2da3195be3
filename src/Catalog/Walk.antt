-- ===== src/Catalog/Walk.antt =====
-- A client that follows the cursors of `query_catalog` to the last page.
use feather_mesh.Prelude.{
  ℕ, suc, zero, ◌≤◌, ◌<◌, ◌≡◌, refl, sym, ap, subst, ◌∙◌, true, ◌&&◌, Option, none, some, List, [],
  ◌∷◌, ◌++◌, arith, Text, text_eq_refl, append_assoc, All, filter, length, take, drop, length-drop,
  ltb, leb, ok, err, ◌>>=◌, Bool-cases, inl, inr,
}
use mathlib.Core.List.{Perm}
use feather_mesh.Peer.Error.{PeerResult}
use feather_mesh.Peer.Types.{Project, PublishedVersion}
use feather_mesh.Peer.Env.{Fs, External}
use feather_mesh.Peer.Opening.{ProjectFiles}
use feather_mesh.Peer.Listing.{Entry, Listing, PeerCoverage, list_registered_with_coverage}
use feather_mesh.Catalog.{
  CatalogQuery, CatalogEntry, CatalogPage, CatalogCodec, max_catalog_page_size, is_match,
  product_matches, all_matches, sort_entries, key_less,
}
use feather_mesh.Catalog.Query.{
  encode_catalog_cursor, check_cursor, after_cursor, key_of, last_of, cursor_after, page_of,
  query_fingerprint, query_catalog,
}
use feather_mesh.Catalog.Cursors.{IsReadBack, decode-encode_catalog_cursor}
use feather_mesh.Catalog.Times.{
  stamped, list_registered_with_coverage-stamped, snapshot_fingerprint_of-stamped,
}
use feather_mesh.Catalog.Order.{
  Ascending, AreDistinct, All-sort_entries, length-sort_entries, sort_entries-Ascending,
  sort_entries-perm, filter-after,
}

abbrev with_entries :
    List CatalogEntry
    → Option (PeerResult (List CatalogEntry))
    → Option (PeerResult (List CatalogEntry))
with_entries es none = none
with_entries es (some (err e)) = some (err e)
with_entries es (some (ok more)) = some (ok (es ++ more))

-- The pages from a cursor on; `none` when the fuel is used up.
-- `rest` follows the next cursor.
abbrev pub page_then :
    (Text → Option (PeerResult (List CatalogEntry)))
    → PeerResult CatalogPage
    → Option (PeerResult (List CatalogEntry))
page_then rest (err e) = some (err e)
page_then rest (ok page) = elim page.next_cursor [
  | none ↦ some (ok page.entries)
  | some next ↦ with_entries page.entries (rest next)
]

abbrev pub follow :
    ℕ
    → (Option Text → PeerResult CatalogPage)
    → Option Text
    → Option (PeerResult (List CatalogEntry))
follow zero pages cursor = none
follow (suc fuel) pages cursor = page_then (λ next. follow fuel pages (some next)) (pages cursor)

-- A query differs from another in its cursor only.
abbrev pub at_cursor : CatalogQuery → Option Text → CatalogQuery
at_cursor query cursor = record query { cursor = cursor }

product_matches-at_cursor :
    (query : CatalogQuery) (cursor : Option Text) (e : Entry) (vs : List PublishedVersion)
    → product_matches (at_cursor query cursor) e vs ≡ product_matches query e vs
unfolding product_matches is_match
product_matches-at_cursor query cursor e [] = refl
product_matches-at_cursor query cursor e (v ∷ vs) =
    rw (product_matches-at_cursor query cursor e vs) refl

all_matches-at_cursor :
    (query : CatalogQuery) (cursor : Option Text) (es : List Entry)
    → all_matches (at_cursor query cursor) es ≡ all_matches query es
unfolding all_matches
all_matches-at_cursor query cursor [] = refl
all_matches-at_cursor query cursor (e ∷ es) =
    rw
      (
        product_matches-at_cursor query cursor e (e.1).versions,
        all_matches-at_cursor query cursor es,
      )
      refl

take-all : {A : Type 0} (n : ℕ) (xs : List A) → length xs ≤ n → take n xs ≡ xs
take-all zero [] h = refl
take-all zero (x ∷ xs) h = absurd (omega (arith, h))
take-all (suc n) [] h = refl
take-all (suc n) (x ∷ xs) h = ap (λ t. x ∷ t) (take-all n xs (omega (arith, h)))

take-append-drop : {A : Type 0} (n : ℕ) (xs : List A) → take n xs ++ drop n xs ≡ xs
take-append-drop zero xs = refl
take-append-drop (suc n) [] = refl
take-append-drop (suc n) (x ∷ xs) = ap (λ t. x ∷ t) (take-append-drop n xs)

-- A page that is not empty, and its last entry.
record EndsWith {A : Type 0} (page : List A) : Type 0 where
  init : List A
  end : A
  whole : page ≡ init ++ end ∷ []
  found : last_of page ≡ some end

EndsWith-cons : {A : Type 0} (x : A) (page : List A) → EndsWith page → EndsWith (x ∷ page)
EndsWith-cons x [] e = record { init = []; end = x; whole = refl; found = refl }
EndsWith-cons x (y ∷ page) e = record {
  init = x ∷ e.init;
  end = e.end;
  whole = ap (λ t. x ∷ t) e.whole;
  found = e.found;
}

take-EndsWith : {A : Type 0} (n : ℕ) (xs : List A) → 1 ≤ n → n ≤ length xs → EndsWith (take n xs)
take-EndsWith zero xs h k = absurd (omega (arith, h))
take-EndsWith (suc n) [] h k = absurd (omega (arith, k))
take-EndsWith (suc zero) (x ∷ xs) h k = record { init = []; end = x; whole = refl; found = refl }
take-EndsWith (suc (suc n)) (x ∷ xs) h k =
    EndsWith-cons x (take (suc n) xs) (take-EndsWith (suc n) xs (omega arith) (omega (arith, k)))

All-split :
    {A : Type 0} (P : A → Type 0) (xs : List A) (y : A) (ys : List A) → All P (xs ++ y ∷ ys) → P y
All-split P [] y ys h = h.0
All-split P (x ∷ xs) y ys h = All-split P xs y ys h.1

-- The sorted matches `m` behind one fingerprint, page by page.
module _ (codec : CatalogCodec) (fingerprint : Text) (coverage : Option Text → List PeerCoverage)
    (limit : ℕ) (m : List CatalogEntry) (pages : Option Text → PeerResult CatalogPage)
    (answers : (cursor : Option Text)
      → pages cursor ≡ (
          check_cursor codec fingerprint cursor >>= λ c.
          ok (page_of codec fingerprint (coverage cursor) limit (after_cursor c m))))
    (some_limit : 1 ≤ limit) (ascending : Ascending m)
    (read_back : All (λ e. IsReadBack codec (cursor_after fingerprint e)) m) where
  -- The cursor leads to the page that begins with `rest`.
  record IsAt (cursor : Option Text) (rest : List CatalogEntry) : Type 0 where
    done : List CatalogEntry
    whole : m ≡ done ++ rest
    page : pages cursor ≡ ok (page_of codec fingerprint (coverage cursor) limit rest)

  next_page :
      (done : List CatalogEntry) (e : CatalogEntry) (rest : List CatalogEntry)
      → m ≡ done ++ e ∷ rest
      → IsAt (some (encode_catalog_cursor codec (cursor_after fingerprint e))) rest
  unfolding check_cursor after_cursor
  next_page done e rest w = record {
    done = done ++ e ∷ [];
    whole = w ∙ sym (append_assoc done (e ∷ []) rest);
    page =
        answers (some (encode_catalog_cursor codec (cursor_after fingerprint e)))
        ∙ rw
            (
              decode-encode_catalog_cursor codec (cursor_after fingerprint e) (
                  All-split (λ e. IsReadBack codec (cursor_after fingerprint e)) done e rest
                    (subst (All (λ e. IsReadBack codec (cursor_after fingerprint e))) w read_back)),
              text_eq_refl fingerprint,
            )
            (ap
              (λ t. ok (
                page_of codec fingerprint
                  (coverage (some (encode_catalog_cursor codec (cursor_after fingerprint e)))) limit
                  t))
              (ap (filter (λ y. key_less (key_of e) (key_of y))) w
                ∙ filter-after done e rest (subst Ascending w ascending)));
  }

  follow-rest :
      (fuel : ℕ) (cursor : Option Text) (rest : List CatalogEntry)
      → length rest < fuel
      → IsAt cursor rest
      → follow fuel pages cursor ≡ some (ok rest)
  unfolding page_of
  follow-rest zero cursor rest few at = absurd (omega (arith, few))
  follow-rest (suc fuel) cursor rest few at = elim (Bool-cases (ltb limit (length rest))) [
    | inr last ↦
        rw (at.page, last) (ap (λ t. some (ok t)) (take-all limit rest (ground (arith, last))))
    | inl more ↦
        let ends = take-EndsWith limit rest some_limit (ground (arith, more)) in
        let after = drop limit rest in
        let parts : rest ≡ ends.init ++ ends.end ∷ after =
          sym (take-append-drop limit rest)
          ∙ ap (λ t. t ++ after) ends.whole
          ∙ append_assoc ends.init (ends.end ∷ []) after in
        let there = next_page (at.done ++ ends.init) ends.end after (
          at.whole
          ∙ ap (λ t. at.done ++ t) parts
          ∙ sym (append_assoc at.done ends.init (ends.end ∷ after))) in
        let ih =
          follow-rest fuel (some (encode_catalog_cursor codec (cursor_after fingerprint ends.end)))
            after (ground (arith, length-drop limit rest, few, more, some_limit)) there in
        rw (at.page, more, ends.found, ih) (ap (λ t. some (ok t)) (take-append-drop limit rest))
  ]

-- The entries are ascending in reference and version, and they are the matches in another order.
pub record IsWhole (query : CatalogQuery) (listing : Listing)
    (answer : Option (PeerResult (List CatalogEntry))) : Type 0 where
  pub entries : List CatalogEntry
  pub answered : answer ≡ some (ok entries)
  pub ascending : Ascending entries
  pub same : Perm entries (all_matches query listing.entries)

permitted_limit : (n : ℕ) → 1 ≤ n → n ≤ 100 → (leb 1 n && leb n max_catalog_page_size) ≡ true
permitted_limit n h k = ground arith

module _ (t : ProjectFiles) (x : External) (codec : CatalogCodec) (fs : Fs) (project : Project)
    (now : Option Text → Text) (query : CatalogQuery) where
  -- The page at a cursor, which is asked for at a time of its own.
  abbrev pub query_page : Option Text → PeerResult CatalogPage
  query_page cursor = query_catalog t x codec fs project (now cursor) (at_cursor query cursor)

  query_page-answers :
      (listing : Listing) (fingerprint : Text)
      → 1 ≤ query.limit
      → query.limit ≤ 100
      → list_registered_with_coverage x fs project (now none) ≡ ok listing
      → query_fingerprint t x codec fs project listing.coverage query ≡ ok fingerprint
      → (cursor : Option Text)
      → query_page cursor ≡ (
          check_cursor codec fingerprint cursor >>= λ c. ok (
            page_of codec fingerprint
              (stamped (now cursor) listing).coverage
              query.limit
              (after_cursor c (sort_entries (all_matches query listing.entries)))))
  unfolding query_catalog query_fingerprint
  query_page-answers listing fingerprint low high listed found cursor =
      rw
        (
          permitted_limit query.limit low high,
          list_registered_with_coverage-stamped x fs project (now none) (now cursor) listing listed,
          same_fingerprint,
          all_matches-at_cursor query cursor listing.entries,
        )
        refl
    where
      same_fingerprint :
          query_fingerprint t x codec fs project
            (stamped (now cursor) listing).coverage
            (at_cursor query cursor)
          ≡ ok fingerprint
      same_fingerprint =
          rw (snapshot_fingerprint_of-stamped x codec (now cursor) listing.coverage) found

  -- A client that follows the cursors of a catalog query gets exactly the matching active versions, each
  -- once and ascending in reference and version, whenever it asks for each page, if the limit is permitted,
  -- the files stay the same, no two matches have the same reference and version, serde_json reads back
  -- the cursors within 2046 bytes, and the client may follow as many cursors as there are matches.
  pub query_catalog-follow :
      (listing : Listing) (fingerprint : Text)
      → 1 ≤ query.limit
      → query.limit ≤ 100
      → list_registered_with_coverage x fs project (now none) ≡ ok listing
      → query_fingerprint t x codec fs project listing.coverage query ≡ ok fingerprint
      → AreDistinct (all_matches query listing.entries)
      → All (λ e. IsReadBack codec (cursor_after fingerprint e)) (all_matches query listing.entries)
      → IsWhole query listing
          (follow (suc (length (all_matches query listing.entries))) query_page none)
  unfolding check_cursor after_cursor
  query_catalog-follow listing fingerprint low high listed found distinct read_back =
      let matches = all_matches query listing.entries in
      let m = sort_entries matches in
      let answers = query_page-answers listing fingerprint low high listed found in
      let ascending = sort_entries-Ascending matches distinct in
      let all_read =
        All-sort_entries (λ e. IsReadBack codec (cursor_after fingerprint e)) matches read_back in
      record {
        entries = m;
        answered =
            follow-rest codec fingerprint (λ cursor. (stamped (now cursor) listing).coverage)
              query.limit m query_page answers low ascending all_read (suc (length matches)) none m
              (omega (arith, length-sort_entries matches))
              (record { done = []; whole = refl; page = answers none });
        ascending = ascending;
        same = sort_entries-perm matches;
      }
