-- ===== src/Peer/Resolve/Local.antt =====
-- `resolve` for the project's own namespace, when each of its steps succeeds.
use feather_mesh.Prelude.{
  ◌≡◌, ap, Bool, true, false, Option, none, some, List, Text, text_eq_refl, ok, err,
}
use feather_mesh.Peer.Error.{PeerError}
use feather_mesh.Peer.Token.{
  validate_namespace, validate_product_id, validate_version, reference, parse_reference,
}
use feather_mesh.Peer.Token.References.{accepted-IsToken, parse_reference-reference}
use feather_mesh.Peer.Types.{Project, Route, PublishedVersion, ServingManifest, active}
use feather_mesh.Peer.Env.{Fs, External}
use feather_mesh.Peer.Project.{namespace, serving_root, route_for_namespace}
use feather_mesh.Peer.Manifest.{read_manifest_at, find_record, is_withdrawn}
use feather_mesh.Peer.Mutation.{manifest_path}
use feather_mesh.Peer.Resolve.{
  ResolvedAsset, resolve_assets, manifest_of, resolve, select_assets, unavailable_if_missing,
}

abbrev pub local : Text → Text → Route
local root ns = record { displayed_root = root; canonical_root = root; namespace = ns }

route_for_namespace-local :
    (fs : Fs) (project : Project) (root : Text)
    → serving_root fs project ≡ ok root
    → route_for_namespace fs project (namespace project) ≡ ok (local root (namespace project))
unfolding route_for_namespace
route_for_namespace-local fs project root h = rw (text_eq_refl (namespace project), h)

manifest_of-local :
    (x : External) (fs : Fs) (root ns : Text) (m : ServingManifest)
    → read_manifest_at x fs (manifest_path root) ≡ ok m
    → m.namespace ≡ ns
    → manifest_of x fs (local root ns) ≡ ok m
unfolding manifest_of unavailable_if_missing
manifest_of-local x fs root ns m h e = rw (h, e, text_eq_refl ns)

active-live : (c : PublishedVersion) → c.lifecycle ≡ active → is_withdrawn c.lifecycle ≡ false
unfolding is_withdrawn
active-live c h = ap is_withdrawn h

module _ (x : External) (fs : Fs) (project : Project) (product_id version root : Text)
    (verify : Bool) (cached : Text → Option Text) (m : ServingManifest)
    (named : validate_namespace (namespace project) ≡ ok tt)
    (identified : validate_product_id product_id ≡ ok tt)
    (labelled : validate_version version ≡ ok tt) (rooted : serving_root fs project ≡ ok root)
    (loaded : read_manifest_at x fs (manifest_path root) ≡ ok m)
    (same : m.namespace ≡ namespace project) where
  parsed :
      parse_reference (reference (namespace project) product_id)
      ≡ ok (namespace project, product_id)
  unfolding validate_namespace validate_product_id
  parsed =
      parse_reference-reference (namespace project) product_id
        (accepted-IsToken "namespace" (namespace project) named)
        (accepted-IsToken "product_id" product_id identified)

  pub resolve-local :
      (c : PublishedVersion) (rs : List ResolvedAsset)
      → find_record product_id version m.products ≡ some c
      → c.lifecycle ≡ active
      → resolve_assets x fs (local root (namespace project)) verify c.assets ≡ ok rs
      → resolve x fs project (reference (namespace project) product_id) version none verify cached
        ≡ ok (record {
          namespace = namespace project;
          product_id = product_id;
          version = version;
          manifest_revision = m.revision;
          assets = rs;
          from_record = c;
          cache_refreshed_at = cached (namespace project);
          integrity_verified = verify;
        })
  unfolding resolve select_assets
  resolve-local c rs found live assets = rw (
    resolve,
    parsed,
    labelled,
    route_for_namespace-local fs project root rooted,
    manifest_of-local x fs root (namespace project) m loaded same,
    found,
    active-live c live,
    assets,
  )

  pub resolve-local_withdrawn :
      (c : PublishedVersion) (asset_id : Option Text)
      → find_record product_id version m.products ≡ some c
      → is_withdrawn c.lifecycle ≡ true
      → resolve x fs project
          (reference (namespace project) product_id)
          version
          asset_id
          verify
          cached
        ≡ err PeerError.withdrawn
  unfolding resolve
  resolve-local_withdrawn c asset_id found gone = rw (
    resolve,
    parsed,
    labelled,
    route_for_namespace-local fs project root rooted,
    manifest_of-local x fs root (namespace project) m loaded same,
    found,
    gone,
  )
