-- ===== src/Catalog/Times.antt =====
-- Two listings of one catalog at different times.
use feather_mesh.Prelude.{
  ℕ, ◌-◌, ◌+◌, ◌≡◌, refl, ap, ◌∙◌, some, none, List, [], ◌∷◌, ◌++◌, map, Text, text_eq, length,
  Bool-cases, inl, inr, ok, err, ◌>>=◌,
}
use feather_mesh.Peer.Error.{PeerResult}
use feather_mesh.Peer.Types.{Project, Route, ServingManifest}
use feather_mesh.Peer.Env.{Fs, External, read_bounded}
use feather_mesh.Peer.Project.{route_for_namespace}
use feather_mesh.Peer.Manifest.{parse_manifest, max_manifest_bytes}
use feather_mesh.Peer.Mutation.{manifest_path}
use feather_mesh.Peer.Listing.{
  PeerCoverage, Listing, add_coverage, add_manifest, add_bytes, exceeds, list_route,
  list_namespaces, listed_namespaces, list_registered_with_coverage, max_catalog_input_bytes,
  smaller, empty_listing, covered, not_covered, failed, other_namespace, entry,
}
use feather_mesh.Catalog.{CatalogCodec}
use feather_mesh.Catalog.Query.{coverage_row, row_stream, sort_rows, snapshot_fingerprint_of}

-- The row as it is observed at another time.
abbrev pub stamp : Text → PeerCoverage → PeerCoverage
stamp now row = record row { observed_at = now }

abbrev pub stamped : Text → Listing → Listing
stamped now l = record l { coverage = map (stamp now) l.coverage }

abbrev stamped_result : Text → PeerResult Listing → PeerResult Listing
stamped_result now (ok l) = ok (stamped now l)
stamped_result now (err e) = err e

map-append_row :
    (now : Text) (rows : List PeerCoverage) (row : PeerCoverage)
    → map (stamp now) rows ++ stamp now row ∷ [] ≡ map (stamp now) (rows ++ row ∷ [])
map-append_row now [] row = refl
map-append_row now (r ∷ rows) row = ap (λ t. stamp now r ∷ t) (map-append_row now rows row)

add_coverage-stamped :
    (now : Text) (row : PeerCoverage) (l : Listing)
    → add_coverage (stamp now row) (stamped now l) ≡ stamped now (add_coverage row l)
unfolding add_coverage
add_coverage-stamped now row l =
    ap (λ (rows : List PeerCoverage). record l { coverage = rows })
      (map-append_row now l.coverage row)

add_manifest-stamped :
    (ns before now : Text) (r : PeerResult ServingManifest) (l : Listing)
    → add_manifest ns now r (stamped now l) ≡ stamped now (add_manifest ns before r l)
unfolding add_manifest
add_manifest-stamped ns before now (err e) l =
    add_coverage-stamped now (not_covered ns before none (failed e)) l
add_manifest-stamped ns before now (ok m) l = elim (Bool-cases (text_eq m.namespace ns)) [
  | inl own ↦ rw own (
      ap
        (λ (rows : List PeerCoverage). record l {
          coverage = rows;
          entries = l.entries ++ map (entry ns m.revision) m.products;
        })
        (map-append_row now l.coverage (covered ns before m.revision)))
  | inr other ↦ rw other (
      add_coverage-stamped now
        (not_covered ns before (some m.revision) (other_namespace m.namespace)) l)
]

add_bytes-stamped :
    (x : External) (ns before now : Text) (r : PeerResult (List ℕ)) (l : Listing)
    → add_bytes x ns now r (stamped now l) ≡ stamped now (add_bytes x ns before r l)
unfolding add_bytes
add_bytes-stamped x ns before now (err e) l =
    add_coverage-stamped now (not_covered ns before none (failed e)) l
add_bytes-stamped x ns before now (ok bytes) l =
    add_manifest-stamped ns before now (parse_manifest x bytes)
      (record l { input_bytes = l.input_bytes + length bytes })

list_route-stamped :
    (x : External) (fs : Fs) (ns before now : Text) (r : PeerResult Route) (l : Listing)
    → list_route x fs ns now r (stamped now l) ≡ stamped_result now (list_route x fs ns before r l)
unfolding list_route
list_route-stamped x fs ns before now (err e) l =
    ap (λ (t : Listing). ok t) (add_coverage-stamped now (not_covered ns before none (failed e)) l)
list_route-stamped x fs ns before now (ok route) l =
    let path = manifest_path route.displayed_root in
    let remaining = max_catalog_input_bytes - l.input_bytes in
    elim (Bool-cases (exceeds fs path remaining)) [
      | inl big ↦ rw big refl
      | inr fits ↦ rw fits (
          ap (λ (t : Listing). ok t)
            (add_bytes-stamped x ns before now
              (read_bounded fs path (smaller remaining max_manifest_bytes)) l))
    ]

list_namespaces-stamped :
    (x : External) (fs : Fs) (project : Project) (before now : Text) (rest : List Text)
    (l : Listing)
    → list_namespaces x fs project now rest (stamped now l)
      ≡ stamped_result now (list_namespaces x fs project before rest l)
unfolding list_namespaces
list_namespaces-stamped x fs project before now [] l = refl
list_namespaces-stamped x fs project before now (ns ∷ rest) l =
    ap (λ (r : PeerResult Listing). r >>= list_namespaces x fs project now rest)
      (list_route-stamped x fs ns before now (route_for_namespace fs project ns) l)
    ∙ go (list_route x fs ns before (route_for_namespace fs project ns) l)
        (λ mid. list_namespaces-stamped x fs project before now rest mid)
  where
    go :
        (r : PeerResult Listing)
        → ((mid : Listing)
            → list_namespaces x fs project now rest (stamped now mid)
              ≡ stamped_result now (list_namespaces x fs project before rest mid))
        → (stamped_result now r >>= list_namespaces x fs project now rest)
          ≡ stamped_result now (r >>= list_namespaces x fs project before rest)
    go (err e) later = refl
    go (ok mid) later = later mid

-- The same listing, but for the times in its rows.
pub list_registered_with_coverage-stamped :
    (x : External) (fs : Fs) (project : Project) (before now : Text) (l : Listing)
    → list_registered_with_coverage x fs project before ≡ ok l
    → list_registered_with_coverage x fs project now ≡ ok (stamped now l)
unfolding list_registered_with_coverage
list_registered_with_coverage-stamped x fs project before now l h =
    list_namespaces-stamped x fs project before now (listed_namespaces project) empty_listing
    ∙ ap (stamped_result now) h

pub snapshot_fingerprint_of-stamped :
    (x : External) (codec : CatalogCodec) (now : Text) (rows : List PeerCoverage)
    → snapshot_fingerprint_of x codec (map (stamp now) rows) ≡ snapshot_fingerprint_of x codec rows
unfolding snapshot_fingerprint_of coverage_row
snapshot_fingerprint_of-stamped x codec now rows =
    ap (λ (ts : List (List ℕ)). x.sha256_hex (row_stream (sort_rows ts))) (same rows)
  where
    same :
        (rows : List PeerCoverage)
        → map (λ row. codec.utf8 (coverage_row codec row)) (map (stamp now) rows)
          ≡ map (λ row. codec.utf8 (coverage_row codec row)) rows
    same [] = refl
    same (row ∷ rows) = ap (λ t. codec.utf8 (coverage_row codec row) ∷ t) (same rows)
