-- ===== src/Peer/Listing/Coverage.antt =====
-- `list_registered_with_coverage`: which namespaces it reports, and where its entries come from.
use feather_mesh.Prelude.{
  ℕ, append-nil, ◌⊎◌, ◌+◌, ◌-◌, ◌≡◌, refl, sym, ap, subst, ◌∙◌, Bool, true, false, ◌&&◌, ◌||◌,
  Option, none, some, List, [], ◌∷◌, ◌++◌, map, arith, Text, text_eq, text_eq_refl, All, All-append,
  any, length, ◌==◌, ok, err, Bool-cases, inl, inr, >>=-eq-ok, ok-injective, append_assoc,
}
use feather_mesh.Peer.Error.{PeerResult}
use feather_mesh.Peer.Types.{Project, Route, ManifestProduct, ServingManifest}
use feather_mesh.Peer.Env.{Fs, External, read_bounded}
use feather_mesh.Peer.Project.{route_for_namespace}
use feather_mesh.Peer.Manifest.{parse_manifest, max_manifest_bytes}
use feather_mesh.Peer.Mutation.{manifest_path}
use feather_mesh.Peer.Listing.{
  PeerCoverage, Entry, Listing, Unavailable, add_coverage, add_manifest, add_bytes, exceeds,
  list_route, list_namespaces, listed_namespaces, list_registered_with_coverage, not_covered,
  covered, entry, failed, other_namespace, max_catalog_input_bytes, smaller, empty_listing,
}

-- The rows that a step adds: exactly one, for the namespace.
pub record IsStep (ns : Text) (before after : Listing) : Type 0 where
  pub row : PeerCoverage
  pub products : List ManifestProduct
  pub revision : ℕ
  pub named : row.namespace ≡ ns
  pub rows : after.coverage ≡ before.coverage ++ row ∷ []
  pub entries : after.entries ≡ before.entries ++ map (entry ns revision) products
  pub sourced : (products ≡ []) ⊎ (row ≡ covered ns row.observed_at revision)

abbrev pub names : List PeerCoverage → List Text
names [] = []
names (row ∷ rows) = row.namespace ∷ names rows

names-append :
    (rows : List PeerCoverage) (row : PeerCoverage)
    → names (rows ++ row ∷ []) ≡ names rows ++ row.namespace ∷ []
names-append [] row = refl
names-append (r ∷ rows) row = ap (λ t. r.namespace ∷ t) (names-append rows row)

not_covered-IsStep :
    (ns now : Text) (revision : Option ℕ) (cause : Unavailable) (l : Listing)
    → IsStep ns l (add_coverage (not_covered ns now revision cause) l)
unfolding add_coverage
not_covered-IsStep ns now revision cause l = record {
  row = not_covered ns now revision cause;
  products = [];
  revision = 0;
  named = refl;
  rows = refl;
  entries = sym (append-nil l.entries);
  sourced = inl refl;
}

add_manifest-IsStep :
    (ns now : Text) (r : PeerResult ServingManifest) (l : Listing)
    → IsStep ns l (add_manifest ns now r l)
unfolding add_manifest
add_manifest-IsStep ns now (err e) l = not_covered-IsStep ns now none (failed e) l
add_manifest-IsStep ns now (ok m) l = elim (Bool-cases (text_eq m.namespace ns)) [
  | inl same ↦ rw same (record {
    row = covered ns now m.revision;
    products = m.products;
    revision = m.revision;
    named = refl;
    rows = refl;
    entries = refl;
    sourced = inr refl;
  })
  | inr other ↦
      rw other (not_covered-IsStep ns now (some m.revision) (other_namespace m.namespace) l)
]

-- A step that counts bytes is a step from the state without them.
counted-IsStep :
    (ns : Text) (n : ℕ) (l after : Listing)
    → IsStep ns (record l { input_bytes = n }) after
    → IsStep ns l after
counted-IsStep ns n l after s = record {
  row = s.row;
  products = s.products;
  revision = s.revision;
  named = s.named;
  rows = s.rows;
  entries = s.entries;
  sourced = s.sourced;
}

add_bytes-IsStep :
    (x : External) (ns now : Text) (r : PeerResult (List ℕ)) (l : Listing)
    → IsStep ns l (add_bytes x ns now r l)
unfolding add_bytes
add_bytes-IsStep x ns now (err e) l = not_covered-IsStep ns now none (failed e) l
add_bytes-IsStep x ns now (ok bytes) l = counted-IsStep ns (l.input_bytes + length bytes) l _ (
    add_manifest-IsStep ns now (parse_manifest x bytes)
      (record l { input_bytes = l.input_bytes + length bytes }))

list_route-IsStep :
    (x : External) (fs : Fs) (ns now : Text) (r : PeerResult Route) (l after : Listing)
    → list_route x fs ns now r l ≡ ok after
    → IsStep ns l after
unfolding list_route
list_route-IsStep x fs ns now (err e) l after h =
    subst (IsStep ns l) (ok-injective h) (not_covered-IsStep ns now none (failed e) l)
list_route-IsStep x fs ns now (ok route) l after h =
    let path = manifest_path route.displayed_root in
    let remaining = max_catalog_input_bytes - l.input_bytes in
    elim (Bool-cases (exceeds fs path remaining)) [
      | inl big ↦ cc (rw big at h)
      | inr fits ↦ subst (IsStep ns l) (ok-injective (rw fits at h)) (
          add_bytes-IsStep x ns now (read_bounded fs path (smaller remaining max_manifest_bytes)) l)
    ]

-- The revision of a row is this one.
abbrev has_revision : Option ℕ → ℕ → Bool
has_revision none n = false
has_revision (some m) n = m == n

-- An entry of an available namespace, at the revision that its row shows.
abbrev is_row_of : Entry → PeerCoverage → Bool
is_row_of e row = row.available && text_eq row.namespace (e.0) && has_revision row.revision (e.2)

abbrev pub IsSourced : List PeerCoverage → Entry → Type 0
IsSourced rows e = any (is_row_of e) rows ≡ true

any-append {ℓ} :
    {A : Type ℓ} (p : A → Bool) (xs ys : List A) → any p (xs ++ ys) ≡ (any p xs || any p ys)
any-append p [] ys = refl
any-append p (x ∷ xs) ys = ground (arith, any-append p xs ys)

IsSourced-more :
    (rows : List PeerCoverage) (row : PeerCoverage) (es : List Entry)
    → All (IsSourced rows) es
    → All (IsSourced (rows ++ row ∷ [])) es
IsSourced-more rows row [] h = tt
IsSourced-more rows row (e ∷ es) h = (
  rw (any-append (is_row_of e) rows (row ∷ [])) (ground (arith, h.0)),
  IsSourced-more rows row es h.1,
)

covered-IsSourced :
    (ns now : Text) (revision : ℕ) (rows : List PeerCoverage) (products : List ManifestProduct)
    → All (IsSourced (rows ++ covered ns now revision ∷ [])) (map (entry ns revision) products)
covered-IsSourced ns now revision rows [] = tt
covered-IsSourced ns now revision rows (p ∷ products) = (
  rw (any-append (is_row_of (entry ns revision p)) rows (covered ns now revision ∷ []))
      (ground (arith, text_eq_refl ns)),
  covered-IsSourced ns now revision rows products,
)

-- What holds of the loop's state after the namespaces `seen`.
pub record IsListing (seen : List Text) (l : Listing) : Type 0 where
  pub reported : names l.coverage ≡ seen
  pub sourced : All (IsSourced l.coverage) l.entries

step-IsListing :
    (seen : List Text) (ns : Text) (before after : Listing)
    → IsListing seen before
    → IsStep ns before after
    → IsListing (seen ++ ns ∷ []) after
step-IsListing seen ns before after l s = record {
  reported = ap names s.rows ∙ names-append before.coverage s.row ∙ rw (l.reported, s.named) refl;
  sourced =
      rw (s.rows, s.entries)
        (All-append (IsSourced (before.coverage ++ s.row ∷ [])) before.entries
          (map (entry ns s.revision) s.products)
          (IsSourced-more before.coverage s.row before.entries l.sourced)
          (added ns before s.row s.products s.revision s.sourced));
}
  where
    added :
        (ns : Text) (before : Listing) (row : PeerCoverage) (products : List ManifestProduct)
        (revision : ℕ)
        → (products ≡ []) ⊎ (row ≡ covered ns row.observed_at revision)
        → All (IsSourced (before.coverage ++ row ∷ [])) (map (entry ns revision) products)
    added ns before row products revision (inl none_added) = rw none_added tt
    added ns before row products revision (inr e) =
        rw e (covered-IsSourced ns row.observed_at revision before.coverage products)

list_namespaces-IsListing :
    (x : External) (fs : Fs) (project : Project) (now : Text) (rest seen : List Text)
    (l after : Listing)
    → IsListing seen l
    → list_namespaces x fs project now rest l ≡ ok after
    → IsListing (seen ++ rest) after
unfolding list_namespaces
list_namespaces-IsListing x fs project now [] seen l after i h =
    subst (λ t. IsListing t after) (sym (append-nil seen))
      (subst (IsListing seen) (ok-injective h) i)
list_namespaces-IsListing x fs project now (ns ∷ rest) seen l after i h =
    let (mid, a, b) =
      >>=-eq-ok (list_route x fs ns now (route_for_namespace fs project ns) l) _ after h in
    let s = list_route-IsStep x fs ns now (route_for_namespace fs project ns) l mid a in
    subst (λ t. IsListing t after) (append_assoc seen (ns ∷ []) rest)
      (list_namespaces-IsListing x fs project now rest (seen ++ ns ∷ []) mid after
        (step-IsListing seen ns l mid i s) b)

-- A listing that succeeds reports every configured namespace exactly once, in the configured order,
-- and each of its entries stands under an available namespace, at the revision that is reported for it.
pub list_registered_with_coverage-IsListing :
    (x : External) (fs : Fs) (project : Project) (now : Text) (l : Listing)
    → list_registered_with_coverage x fs project now ≡ ok l
    → IsListing (listed_namespaces project) l
unfolding list_registered_with_coverage
list_registered_with_coverage-IsListing x fs project now l h =
    list_namespaces-IsListing x fs project now (listed_namespaces project) [] empty_listing l
      (record { reported = refl; sourced = tt }) h
