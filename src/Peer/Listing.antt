-- ===== src/Peer/Listing.antt =====
-- `list_registered_with_coverage`, `list_registered`, `refresh` and `cache_status` of peer_access.rs.
pub mod Coverage
pub mod Cached
pub mod Bytes
use feather_mesh.Prelude.{
  ℕ, ◌+◌, ◌-◌, Bool, true, false, Option, none, some, List, [], ◌∷◌, ◌++◌, map, Text, text_eq,
  is_empty, find, length, ltb, leb, ok, err, ok_or, ◌>>=◌, ◌>>◌, if◌then◌else◌,
}
use feather_mesh.Peer.Error.{PeerError, PeerResult, validation, io, io_not_found, json}
use feather_mesh.Peer.Types.{Project, PeerRouteConfig, Route, ManifestProduct, ServingManifest}
use feather_mesh.Peer.Env.{Fs, External, Os, read_bounded, lift_io, write_atomic_text}
use feather_mesh.Peer.Project.{namespace, route_for_namespace}
use feather_mesh.Peer.Manifest.{parse_manifest, read_manifest_at, max_manifest_bytes}
use feather_mesh.Peer.Mutation.{manifest_path}

abbrev pub max_catalog_input_bytes : ℕ
max_catalog_input_bytes = 33554432

-- Why a namespace gives no entries: the message's cause.
pub data Unavailable : Type 0 where
  failed : PeerError → Unavailable
  other_namespace : Text → Unavailable

pub record PeerCoverage : Type 0 where
  pub namespace : Text
  pub revision : Option ℕ
  pub observed_at : Text
  pub available : Bool
  pub error : Option Unavailable

-- One registered product: the namespace, the product and the manifest's revision.
abbrev pub Entry : Type 0
Entry = Text × ManifestProduct × ℕ

-- The state of the loop; `entries` and `coverage` are `RegisteredListing`.
pub record Listing : Type 0 where
  pub input_bytes : ℕ
  pub entries : List Entry
  pub coverage : List PeerCoverage

unfoldable pub peer_namespaces : List PeerRouteConfig → List Text
peer_namespaces [] = []
peer_namespaces (peer ∷ peers) = peer.namespace ∷ peer_namespaces peers

unfoldable pub listed_namespaces : Project → List Text
unfolding peer_namespaces
listed_namespaces project = elim project.config.serving_dir [
  | none ↦ peer_namespaces project.config.peers
  | some path ↦ namespace project ∷ peer_namespaces project.config.peers
]

abbrev pub not_covered : Text → Text → Option ℕ → Unavailable → PeerCoverage
not_covered ns now revision cause = record {
  namespace = ns;
  revision = revision;
  observed_at = now;
  available = false;
  error = some cause;
}

abbrev pub covered : Text → Text → ℕ → PeerCoverage
covered ns now revision = record {
  namespace = ns;
  revision = some revision;
  observed_at = now;
  available = true;
  error = none;
}

unfoldable pub add_coverage : PeerCoverage → Listing → Listing
add_coverage row l = record l { coverage = l.coverage ++ row ∷ [] }

abbrev pub entry : Text → ℕ → ManifestProduct → Entry
entry ns revision product = (ns, product, revision)

-- What the bytes of a manifest add.
unfoldable pub add_manifest : Text → Text → PeerResult ServingManifest → Listing → Listing
unfolding add_coverage
add_manifest ns now (err e) l = add_coverage (not_covered ns now none (failed e)) l
add_manifest ns now (ok manifest) l =
    if text_eq manifest.namespace ns
    then record l {
      coverage = l.coverage ++ covered ns now manifest.revision ∷ [];
      entries = l.entries ++ map (entry ns manifest.revision) manifest.products;
    }
    else add_coverage
        (not_covered ns now (some manifest.revision) (other_namespace manifest.namespace)) l

unfoldable pub add_bytes : External → Text → Text → PeerResult (List ℕ) → Listing → Listing
unfolding add_manifest add_coverage
add_bytes x ns now (err e) l = add_coverage (not_covered ns now none (failed e)) l
add_bytes x ns now (ok bytes) l =
    add_manifest ns now (parse_manifest x bytes)
      (record l { input_bytes = l.input_bytes + length bytes })

-- `fs::metadata(path).is_ok_and(|m| m.len() > remaining)`
unfoldable pub exceeds : Fs → Text → ℕ → Bool
exceeds fs path remaining = elim (fs.metadata path) [ ok m ↦ ltb remaining m.len | err k ↦ false ]

abbrev pub smaller : ℕ → ℕ → ℕ
smaller a b = if leb a b then a else b

-- The body of the loop over the namespaces; `-` on ℕ is `saturating_sub`.
unfoldable pub list_route :
    External → Fs → Text → Text → PeerResult Route → Listing → PeerResult Listing
unfolding add_bytes add_coverage exceeds
list_route x fs ns now (err e) l = ok (add_coverage (not_covered ns now none (failed e)) l)
list_route x fs ns now (ok route) l =
    let path = manifest_path route.displayed_root in
    let remaining = max_catalog_input_bytes - l.input_bytes in
    if exceeds fs path remaining
    then err (validation "catalog_input")
    else ok (add_bytes x ns now (read_bounded fs path (smaller remaining max_manifest_bytes)) l)

unfoldable pub list_namespaces :
    External → Fs → Project → Text → List Text → Listing → PeerResult Listing
unfolding list_route
list_namespaces x fs project now [] l = ok l
list_namespaces x fs project now (ns ∷ rest) l =
    list_route x fs ns now (route_for_namespace fs project ns) l
    >>= list_namespaces x fs project now rest

abbrev pub empty_listing : Listing
empty_listing = record { input_bytes = 0; entries = []; coverage = [] }

unfoldable pub list_registered_with_coverage : External → Fs → Project → Text → PeerResult Listing
unfolding list_namespaces listed_namespaces
list_registered_with_coverage x fs project now =
    list_namespaces x fs project now (listed_namespaces project) empty_listing

unfoldable pub list_registered : External → Fs → Project → Text → PeerResult (List Entry)
unfolding list_registered_with_coverage
list_registered x fs project now = do
  listing ← list_registered_with_coverage x fs project now
  ok listing.entries

pub record CachePeerStatus : Type 0 where
  pub namespace : Text
  pub revision : Option ℕ
  pub refreshed_at : Text
  pub error : Option Unavailable

pub record CacheSnapshot : Type 0 where
  pub schema_version : ℕ
  pub project_namespace : Text
  pub peers : List CachePeerStatus

-- serde_json on the cache file, and where `cache_path` puts it.
pub record Cache : Type 0 where
  pub path : Text
  pub encode : CacheSnapshot → Option (List ℕ)
  pub decode : List ℕ → Option CacheSnapshot

abbrev pub status : Text → Text → Option ℕ → Option Unavailable → CachePeerStatus
status ns now revision error = record {
  namespace = ns;
  revision = revision;
  refreshed_at = now;
  error = error;
}

unfoldable pub manifest_status : Text → Text → PeerResult ServingManifest → CachePeerStatus
manifest_status ns now (err e) = status ns now none (some (failed e))
manifest_status ns now (ok manifest) =
    if text_eq manifest.namespace ns
    then status ns now (some manifest.revision) none
    else status ns now none (some (other_namespace manifest.namespace))

-- A route that is not there has an empty displayed root, as has a peer at the empty path.
unfoldable pub route_status : External → Fs → Text → Route → CachePeerStatus
unfolding manifest_status
route_status x fs now route =
    if is_empty route.displayed_root
    then status route.namespace now none (some (failed PeerError.peer_unavailable))
    else manifest_status route.namespace now
        (read_manifest_at x fs (manifest_path route.displayed_root))

unfoldable pub route_or_empty : Text → PeerResult Route → Route
route_or_empty ns (ok route) = route
route_or_empty ns (err e) = record { displayed_root = []; canonical_root = []; namespace = ns }

unfoldable pub peer_statuses :
    External → Fs → Project → Text → List PeerRouteConfig → List CachePeerStatus
unfolding route_status route_or_empty
peer_statuses x fs project now [] = []
peer_statuses x fs project now (peer ∷ peers) =
    route_status x fs now
      (route_or_empty peer.namespace (route_for_namespace fs project peer.namespace))
    ∷ peer_statuses x fs project now peers

-- The project's own route, whose failure is the refresh's.
unfoldable pub own_status : External → Fs → Project → Text → PeerResult (List CachePeerStatus)
unfolding route_status
own_status x fs project now = elim project.config.serving_dir [
  | none ↦ ok []
  | some path ↦ do
    route ← route_for_namespace fs project (namespace project)
    ok (route_status x fs now route ∷ [])
]

unfoldable pub snapshot_of_statuses : Project → List CachePeerStatus → CacheSnapshot
snapshot_of_statuses project peers = record {
  schema_version = 1;
  project_namespace = namespace project;
  peers = peers;
}

unfoldable pub observe : External → Fs → Project → Text → PeerResult CacheSnapshot
unfolding own_status peer_statuses snapshot_of_statuses
observe x fs project now = do
  own ← own_status x fs project now
  ok (snapshot_of_statuses project (own ++ peer_statuses x fs project now project.config.peers))

unfoldable pub store_snapshot :
    Cache → Os → Fs → PeerResult CacheSnapshot → Fs × PeerResult CacheSnapshot
store_snapshot cache os fs (err e) = (fs, err e)
store_snapshot cache os fs (ok snapshot) = elim (cache.encode snapshot) [
  | none ↦ (fs, err json)
  | some bytes ↦
      let (fs', written) = write_atomic_text os fs cache.path bytes in (fs', written >> ok snapshot)
]

unfoldable pub refresh : External → Cache → Os → Fs → Project → Fs × PeerResult CacheSnapshot
unfolding observe store_snapshot
refresh x cache os fs project = store_snapshot cache os fs (observe x fs project os.now)

unfoldable pub read_cache : Cache → Fs → PeerResult CacheSnapshot
read_cache cache fs = do bytes ← lift_io (fs.read cache.path); ok_or (cache.decode bytes) json

-- A cache that is not there is no error.
unfoldable pub absent_cache : PeerResult CacheSnapshot → PeerResult (Option CacheSnapshot)
absent_cache (ok snapshot) = ok (some snapshot)
absent_cache (err (io io_not_found)) = ok none
absent_cache (err e) = err e

unfoldable pub cache_status : Cache → Fs → PeerResult (Option CacheSnapshot)
unfolding absent_cache read_cache
cache_status cache fs = absent_cache (read_cache cache fs)

abbrev pub is_clean : Option Unavailable → Bool
is_clean none = true
is_clean (some cause) = false

unfoldable pub refreshed_at_for : CacheSnapshot → Text → Option Text
refreshed_at_for snapshot ns =
    elim (find (λ peer. if text_eq peer.namespace ns then is_clean peer.error else false)
      snapshot.peers) [ none ↦ none | some peer ↦ some peer.refreshed_at ]
