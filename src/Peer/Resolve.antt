-- ===== src/Peer/Resolve.antt =====
-- `resolve` of peer_access.rs: from a qualified reference and a version to verified assets.
pub mod AfterPublish
pub mod AfterWithdraw
pub mod Local
use feather_mesh.Prelude.{
  ℕ, Bool, true, false, not, ◌==◌, ◌&&◌, Option, none, some, List, [], ◌∷◌, Text, text_eq, find,
  Result, ok, err, ◌>>=◌, ◌>>◌, guard, ok_or, if◌then◌else◌,
}
use feather_mesh.Std.FilePath.{join}
use feather_mesh.Peer.Error.{
  PeerError, PeerResult, io, io_not_found, not_found, peer_unavailable, policy, withdrawn,
  dataset_not_registered, integrity,
}
use feather_mesh.Peer.Token.{validate_version, parse_reference}
use feather_mesh.Peer.Types.{
  Project, Route, AssetRecord, PublishedVersion, ManifestProduct, ServingManifest, Lifecycle,
}
use feather_mesh.Peer.Env.{Fs, Metadata, External, or_error}
use feather_mesh.Peer.Project.{route_for_namespace, checked_asset_path}
use feather_mesh.Peer.Validation.Inspect.{sha256_file}
use feather_mesh.Peer.Manifest.{read_manifest_at, find_record, is_withdrawn}
use feather_mesh.Peer.Mutation.{manifest_path}

pub record ResolvedAsset : Type 0 where
  pub id : Text
  pub project_access_path : Text
  pub media_type : Text
  pub role : Text
  pub size : ℕ
  pub sha256 : Option Text

abbrev pub resolved_asset : AssetRecord → Text → ResolvedAsset
resolved_asset asset access = record {
  id = asset.id;
  project_access_path = access;
  media_type = asset.media_type;
  role = asset.role;
  size = asset.size;
  sha256 = asset.sha256;
}

-- The fields that `resolve` copies from the record are the field `from_record`.
pub record ResolvedProduct : Type 0 where
  pub namespace : Text
  pub product_id : Text
  pub version : Text
  pub manifest_revision : ℕ
  pub assets : List ResolvedAsset
  pub from_record : PublishedVersion
  pub cache_refreshed_at : Option Text
  pub integrity_verified : Bool

-- A manifest that is not there makes its namespace unavailable.
unfoldable pub unavailable_if_missing : PeerResult ServingManifest → PeerResult ServingManifest
unavailable_if_missing (err (io io_not_found)) = err peer_unavailable
unavailable_if_missing (err not_found) = err peer_unavailable
unavailable_if_missing r = r

unfoldable pub select_assets : PublishedVersion → Option Text → PeerResult (List AssetRecord)
select_assets record' none = ok record'.assets
select_assets record' (some id) = do
  asset ← ok_or (find (λ a. text_eq a.id id) record'.assets) dataset_not_registered
  ok (asset ∷ [])

unfoldable pub check_content : External → Fs → Text → Bool → Option Text → PeerResult (Unit {0})
check_content x fs canonical true (some expected) = do
  actual ← sha256_file x fs canonical
  guard (text_eq actual expected) integrity
check_content x fs canonical _ _ = ok tt

unfoldable pub resolve_asset : External → Fs → Route → Bool → AssetRecord → PeerResult ResolvedAsset
resolve_asset x fs route verify asset = do
  (access, canonical) ← checked_asset_path fs route.displayed_root route.canonical_root asset.path
  metadata ← or_error (fs.metadata canonical) peer_unavailable
  guard (metadata.len == asset.size) integrity
  check_content x fs canonical verify asset.sha256
  ok (resolved_asset asset access)

unfoldable pub resolve_assets :
    External → Fs → Route → Bool → List AssetRecord → PeerResult (List ResolvedAsset)
resolve_assets x fs route verify [] = ok []
resolve_assets x fs route verify (a ∷ rest) = do
  r ← resolve_asset x fs route verify a
  rs ← resolve_assets x fs route verify rest
  ok (r ∷ rs)

-- The manifest that a route shows under its namespace.
unfoldable pub manifest_of : External → Fs → Route → PeerResult ServingManifest
manifest_of x fs route = do
  manifest ← unavailable_if_missing (read_manifest_at x fs (manifest_path route.displayed_root))
  guard (text_eq manifest.namespace route.namespace) policy
  ok manifest

-- `cached` is what the cache file says of the namespace's last refresh.
unfoldable pub resolve :
    External
    → Fs
    → Project
    → Text
    → Text
    → Option Text
    → Bool
    → (Text → Option Text)
    → PeerResult ResolvedProduct
resolve x fs project qualified_reference version asset_id verify cached = do
  (ns, product_id) ← parse_reference qualified_reference
  validate_version version
  route ← route_for_namespace fs project ns
  manifest ← manifest_of x fs route
  found ← ok_or (find_record product_id version manifest.products) not_found
  guard (not (is_withdrawn found.lifecycle)) withdrawn
  selected ← select_assets found asset_id
  assets ← resolve_assets x fs route verify selected
  ok (record {
    namespace = ns;
    product_id = product_id;
    version = version;
    manifest_revision = manifest.revision;
    assets = assets;
    from_record = found;
    cache_refreshed_at = cached ns;
    integrity_verified = verify;
  })
