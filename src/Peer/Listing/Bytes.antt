-- ===== src/Peer/Listing/Bytes.antt =====
-- How much `list_registered_with_coverage` reads of the manifests that it can read.
use feather_mesh.Prelude.{
  ℕ, zero, suc, guard, not, take, ◌+◌, ◌-◌, ◌≤◌, ◌<◌, ◌≡◌, refl, ap, subst, Option, none, some,
  List, [], ◌∷◌, ◌++◌, arith, Text, text_eq, length, ltb, Result, ok, err, Bool-cases, inl, inr,
  >>=-eq-ok, >>-eq-ok, guard-eq-ok, ok-injective,
}
use feather_mesh.Peer.Error.{IoKind, PeerResult, validation}
use feather_mesh.Peer.Types.{Project, Route, ServingManifest}
use feather_mesh.Peer.Env.{Fs, External, read_bounded, lift_io}
use feather_mesh.Peer.Project.{route_for_namespace}
use feather_mesh.Peer.Manifest.{parse_manifest, max_manifest_bytes}
use feather_mesh.Peer.Mutation.{manifest_path}
use feather_mesh.Peer.Listing.{
  PeerCoverage, Listing, Unavailable, add_coverage, add_manifest, add_bytes, exceeds, list_route,
  list_namespaces, listed_namespaces, list_registered_with_coverage, not_covered, covered, failed,
  other_namespace, max_catalog_input_bytes, smaller, empty_listing,
}

-- The length of a file, if it can be read.
abbrev pub read_length : Result IoKind (List ℕ) → ℕ
read_length (ok bytes) = length bytes
read_length (err k) = 0

-- The length of the manifest to which a route leads.
abbrev pub manifest_length : Fs → PeerResult Route → ℕ
manifest_length fs (err e) = 0
manifest_length fs (ok route) = read_length (fs.read (manifest_path route.displayed_root))

-- A row with a revision counts with this length.
abbrev pub weigh : Option ℕ → ℕ → ℕ
weigh none n = 0
weigh (some revision) n = n

-- The lengths of the manifests of all rows that show a revision, together.
abbrev pub total_length : Fs → Project → List PeerCoverage → ℕ
total_length fs project [] = 0
total_length fs project (row ∷ rows) =
    weigh row.revision (manifest_length fs (route_for_namespace fs project row.namespace))
    + total_length fs project rows

total_length-append :
    (fs : Fs) (project : Project) (rows : List PeerCoverage) (row : PeerCoverage)
    → total_length fs project (rows ++ row ∷ [])
      ≡ total_length fs project rows
        + weigh row.revision (manifest_length fs (route_for_namespace fs project row.namespace))
total_length-append fs project [] row = omega arith
total_length-append fs project (r ∷ rows) row =
    omega (arith, total_length-append fs project rows row)

weigh-≤ : (o : Option ℕ) (n k : ℕ) → n ≤ k → weigh o n ≤ k
weigh-≤ none n k h = omega arith
weigh-≤ (some r) n k h = h

-- The row that a step adds, whose manifest is counted.
record IsCounted (ns : Text) (n : ℕ) (before after : Listing) : Type 0 where
  row : PeerCoverage
  named : row.namespace ≡ ns
  rows : after.coverage ≡ before.coverage ++ row ∷ []
  counted : before.input_bytes + weigh row.revision n ≤ after.input_bytes

uncounted :
    (ns now : Text) (n : ℕ) (cause : Unavailable) (l : Listing)
    → IsCounted ns n l (add_coverage (not_covered ns now none cause) l)
unfolding add_coverage
uncounted ns now n cause l = record {
  row = not_covered ns now none cause;
  named = refl;
  rows = refl;
  counted = omega arith;
}

add_manifest-IsCounted :
    (ns now : Text) (n : ℕ) (r : PeerResult ServingManifest) (l after : Listing)
    → l.input_bytes + n ≤ after.input_bytes
    → after.coverage ≡ l.coverage
    → IsCounted ns n l (add_manifest ns now r after)
unfolding add_manifest add_coverage
add_manifest-IsCounted ns now n (err e) l after h same = record {
  row = not_covered ns now none (failed e);
  named = refl;
  rows = rw same refl;
  counted = omega (arith, h);
}
add_manifest-IsCounted ns now n (ok m) l after h same = elim (Bool-cases (text_eq m.namespace ns)) [
  | inl own ↦
      rw own
        (record { row = covered ns now m.revision; named = refl; rows = rw same refl; counted = h })
  | inr other ↦ rw other (record {
    row = not_covered ns now (some m.revision) (other_namespace m.namespace);
    named = refl;
    rows = rw same refl;
    counted = h;
  })
]

add_bytes-IsCounted :
    (x : External) (ns now : Text) (n : ℕ) (r : PeerResult (List ℕ)) (l : Listing)
    → ((bytes : List ℕ) → r ≡ ok bytes → n ≤ length bytes)
    → IsCounted ns n l (add_bytes x ns now r l)
unfolding add_bytes
add_bytes-IsCounted x ns now n (err e) l h = uncounted ns now n (failed e) l
add_bytes-IsCounted x ns now n (ok bytes) l h =
    add_manifest-IsCounted ns now n (parse_manifest x bytes) l
      (record l { input_bytes = l.input_bytes + length bytes }) (omega (arith, h bytes refl)) refl

length-take : (k : ℕ) (xs : List ℕ) → length (take k xs) < k → length xs ≤ length (take k xs)
length-take zero xs h = omega (arith, h)
length-take (suc k) [] h = omega arith
length-take (suc k) (x ∷ xs) h = omega (arith, h, length-take k xs (omega (arith, h)))

lift_io-read_length :
    (r : Result IoKind (List ℕ)) (bytes : List ℕ)
    → lift_io r ≡ ok bytes
    → read_length r ≡ length bytes
lift_io-read_length (ok all_bytes) bytes h = ap length (ok-injective h)
lift_io-read_length (err k) bytes h = cc

-- What is read within the limit is the whole file.
read_bounded-whole :
    (fs : Fs) (path : Text) (limit : ℕ) (bytes : List ℕ)
    → read_bounded fs path limit ≡ ok bytes
    → read_length (fs.read path) ≤ length bytes
unfolding read_bounded
read_bounded-whole fs path limit bytes h =
    let (all_bytes, r, k) = >>=-eq-ok (lift_io (fs.read path)) _ bytes h in
    let (g, e) =
      >>-eq-ok
        (guard (not (ltb limit (length (take (limit + 1) all_bytes)))) (validation "input_size")) _
        bytes k in
    let fits = guard-eq-ok _ (validation "input_size") g in
    let short : length (take (limit + 1) all_bytes) < limit + 1 = ground (arith, fits) in
    subst (λ (t : List ℕ). read_length (fs.read path) ≤ length t) (ok-injective e)
      (rw (lift_io-read_length (fs.read path) all_bytes r)
        (length-take (limit + 1) all_bytes short))

list_route-IsCounted :
    (x : External) (fs : Fs) (ns now : Text) (r : PeerResult Route) (l after : Listing)
    → list_route x fs ns now r l ≡ ok after
    → IsCounted ns (manifest_length fs r) l after
unfolding list_route
list_route-IsCounted x fs ns now (err e) l after h =
    subst (IsCounted ns 0 l) (ok-injective h) (uncounted ns now 0 (failed e) l)
list_route-IsCounted x fs ns now (ok route) l after h =
    let path = manifest_path route.displayed_root in
    let remaining = max_catalog_input_bytes - l.input_bytes in
    let limit = smaller remaining max_manifest_bytes in
    elim (Bool-cases (exceeds fs path remaining)) [
      | inl big ↦ cc (rw big at h)
      | inr fits ↦
          subst (IsCounted ns (manifest_length fs (ok route)) l) (ok-injective (rw fits at h)) (
            add_bytes-IsCounted x ns now (manifest_length fs (ok route))
              (read_bounded fs path limit) l (read_bounded-whole fs path limit))
    ]

step-total_length :
    (fs : Fs) (project : Project) (ns : Text) (before after : Listing)
    → total_length fs project before.coverage ≤ before.input_bytes
    → IsCounted ns (manifest_length fs (route_for_namespace fs project ns)) before after
    → total_length fs project after.coverage ≤ after.input_bytes
step-total_length fs project ns before after b c =
    rw (c.rows, total_length-append fs project before.coverage c.row, c.named)
      (omega (arith, b, c.counted))

list_namespaces-total_length :
    (x : External) (fs : Fs) (project : Project) (now : Text) (rest : List Text) (l after : Listing)
    → total_length fs project l.coverage ≤ l.input_bytes
    → list_namespaces x fs project now rest l ≡ ok after
    → total_length fs project after.coverage ≤ after.input_bytes
unfolding list_namespaces
list_namespaces-total_length x fs project now [] l after b h =
    subst (λ (t : Listing). total_length fs project t.coverage ≤ t.input_bytes) (ok-injective h) b
list_namespaces-total_length x fs project now (ns ∷ rest) l after b h =
    let (mid, a, k) =
      >>=-eq-ok (list_route x fs ns now (route_for_namespace fs project ns) l) _ after h in
    list_namespaces-total_length x fs project now rest mid after
      (step-total_length fs project ns l mid b
        (list_route-IsCounted x fs ns now (route_for_namespace fs project ns) l mid a))
      k

read_bounded-length :
    (fs : Fs) (path : Text) (limit : ℕ) (bytes : List ℕ)
    → read_bounded fs path limit ≡ ok bytes
    → length bytes ≤ limit
unfolding read_bounded
read_bounded-length fs path limit bytes h =
    let (all_bytes, _, k) = >>=-eq-ok (lift_io (fs.read path)) _ bytes h in
    let (g, e) =
      >>-eq-ok
        (guard (not (ltb limit (length (take (limit + 1) all_bytes)))) (validation "input_size")) _
        bytes k in
    let fits = guard-eq-ok _ (validation "input_size") g in
    subst (λ t. length t ≤ limit) (ok-injective e) (ground arith)

add_manifest-input_bytes :
    (ns now : Text) (r : PeerResult ServingManifest) (l : Listing)
    → (add_manifest ns now r l).input_bytes ≡ l.input_bytes
unfolding add_manifest add_coverage
add_manifest-input_bytes ns now (err e) l = refl
add_manifest-input_bytes ns now (ok m) l = elim (Bool-cases (text_eq m.namespace ns)) [
  | inl same ↦ rw same refl
  | inr other ↦ rw other refl
]

add_bytes-bounded :
    (x : External) (ns now : Text) (r : PeerResult (List ℕ)) (l : Listing) (limit : ℕ)
    → ((bytes : List ℕ) → r ≡ ok bytes → length bytes ≤ limit)
    → l.input_bytes + limit ≤ max_catalog_input_bytes
    → (add_bytes x ns now r l).input_bytes ≤ max_catalog_input_bytes
unfolding add_bytes add_coverage
add_bytes-bounded x ns now (err e) l limit h k = omega arith
add_bytes-bounded x ns now (ok bytes) l limit h k =
    rw
      (add_manifest-input_bytes ns now (parse_manifest x bytes)
        (record l { input_bytes = l.input_bytes + length bytes }))
      (omega (arith, h bytes refl))

list_route-bounded :
    (x : External) (fs : Fs) (ns now : Text) (r : PeerResult Route) (l after : Listing)
    → l.input_bytes ≤ max_catalog_input_bytes
    → list_route x fs ns now r l ≡ ok after
    → after.input_bytes ≤ max_catalog_input_bytes
unfolding list_route add_coverage
list_route-bounded x fs ns now (err e) l after b h =
    subst (λ (t : Listing). t.input_bytes ≤ max_catalog_input_bytes) (ok-injective h) b
list_route-bounded x fs ns now (ok route) l after b h =
    let path = manifest_path route.displayed_root in
    let remaining = max_catalog_input_bytes - l.input_bytes in
    let limit = smaller remaining max_manifest_bytes in
    elim (Bool-cases (exceeds fs path remaining)) [
      | inl big ↦ cc (rw big at h)
      | inr fits ↦
          subst (λ (t : Listing). t.input_bytes ≤ max_catalog_input_bytes)
            (ok-injective (rw fits at h))
            (add_bytes-bounded x ns now (read_bounded fs path limit) l limit
              (read_bounded-length fs path limit) (within l.input_bytes b))
    ]
  where
    within :
        (n : ℕ)
        → n ≤ max_catalog_input_bytes
        → n + smaller (max_catalog_input_bytes - n) max_manifest_bytes ≤ max_catalog_input_bytes
    within n b = ground arith

list_namespaces-bounded :
    (x : External) (fs : Fs) (project : Project) (now : Text) (rest : List Text) (l after : Listing)
    → l.input_bytes ≤ max_catalog_input_bytes
    → list_namespaces x fs project now rest l ≡ ok after
    → after.input_bytes ≤ max_catalog_input_bytes
unfolding list_namespaces
list_namespaces-bounded x fs project now [] l after b h =
    subst (λ (t : Listing). t.input_bytes ≤ max_catalog_input_bytes) (ok-injective h) b
list_namespaces-bounded x fs project now (ns ∷ rest) l after b h =
    let (mid, a, k) =
      >>=-eq-ok (list_route x fs ns now (route_for_namespace fs project ns) l) _ after h in
    list_namespaces-bounded x fs project now rest mid after
      (list_route-bounded x fs ns now (route_for_namespace fs project ns) l mid b a) k

-- The manifests of all namespaces whose revision a listing reports, which are those that it read and could
-- parse, have at most 32 MiB together.
pub list_registered_with_coverage-bounded :
    (x : External) (fs : Fs) (project : Project) (now : Text) (l : Listing)
    → list_registered_with_coverage x fs project now ≡ ok l
    → total_length fs project l.coverage ≤ max_catalog_input_bytes
unfolding list_registered_with_coverage
list_registered_with_coverage-bounded x fs project now l h =
    let counted =
      list_namespaces-total_length x fs project now (listed_namespaces project) empty_listing l
        (omega arith) h in
    let bounded =
      list_namespaces-bounded x fs project now (listed_namespaces project) empty_listing l
        (omega arith) h in
    omega (arith, counted, bounded)
