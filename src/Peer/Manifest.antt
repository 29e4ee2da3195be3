-- ===== src/Peer/Manifest.antt =====
-- The manifest of peer_access.rs: reading, parsing and writing it, and the edits that publication and
-- withdrawal make to its products.
pub mod Edits
pub mod WellFormed
pub mod Withdrawn
pub mod Reading
use feather_mesh.Prelude.{
  ℕ, Bool, true, false, not, ◌==◌, Option, none, some, List, [], ◌∷◌, ◌++◌, Text, text_eq, find,
  any, length, Result, ok, err, ◌>>=◌, ◌>>◌, guard, ok_or, if◌then◌else◌, ltb, ◌*◌, ◌+◌, ◌%◌, ◌^◌,
}
use feather_mesh.Peer.Error.{PeerError, PeerResult, validation, json, not_found, conflict}
use feather_mesh.Peer.Token.{validate_namespace}
use feather_mesh.Peer.Types.{
  Lifecycle, active, withdrawn, PublishedVersion, ManifestProduct, ServingManifest,
}
use feather_mesh.Peer.Env.{Fs, External, Os, exists, read_bounded, write_atomic_text}

abbrev pub max_manifest_bytes : ℕ
max_manifest_bytes = 8 * 1024 * 1024

unfoldable pub empty_manifest : Text → Text → ServingManifest
empty_manifest ns now = record {
  schema_version = 1;
  namespace = ns;
  revision = 0;
  updated_at = now;
  products = [];
}

unfoldable pub parse_manifest : External → List ℕ → PeerResult ServingManifest
parse_manifest x bytes = do
  manifest ← ok_or (x.decode_manifest bytes) json
  guard (manifest.schema_version == 1) (validation "manifest.schema_version")
  validate_namespace manifest.namespace
  ok manifest

unfoldable pub read_manifest_at : External → Fs → Text → PeerResult ServingManifest
read_manifest_at x fs path = do
  guard (exists fs path) not_found
  bytes ← read_bounded fs path max_manifest_bytes
  parse_manifest x bytes

unfoldable pub empty_if_missing :
    Text → Text → PeerResult ServingManifest → PeerResult ServingManifest
empty_if_missing ns now (err not_found) = ok (empty_manifest ns now)
empty_if_missing ns now r = r

unfoldable pub read_or_empty_manifest :
    External → Fs → Text → Text → Text → PeerResult ServingManifest
read_or_empty_manifest x fs path ns now = empty_if_missing ns now (read_manifest_at x fs path)

unfoldable pub write_encoded : Os → Fs → Text → Option (List ℕ) → Fs × PeerResult (Unit {0})
write_encoded os fs path none = (fs, err json)
write_encoded os fs path (some bytes) =
    if ltb max_manifest_bytes (length bytes)
    then (fs, err (validation "manifest"))
    else write_atomic_text os fs path bytes

unfoldable pub write_manifest_atomic :
    External → Os → Fs → Text → ServingManifest → Fs × PeerResult (Unit {0})
unfolding write_encoded
write_manifest_atomic x os fs path manifest = write_encoded os fs path (x.encode_manifest manifest)

-- `products.iter().find(..).and_then(|p| p.versions.iter().find(..))`
unfoldable pub find_record : Text → Text → List ManifestProduct → Option PublishedVersion
find_record product_id version [] = none
find_record product_id version (p ∷ ps) =
    if text_eq p.id product_id
    then find (λ r. text_eq r.version version) p.versions
    else find_record product_id version ps

unfoldable pub cons_product :
    ManifestProduct → PeerResult (List ManifestProduct) → PeerResult (List ManifestProduct)
cons_product p (ok ps) = ok (p ∷ ps)
cons_product p (err e) = err e

-- The edit of `publish_reviewed`: the version joins the product of its id, or makes a new product.
unfoldable pub add_version :
    PublishedVersion → List ManifestProduct → PeerResult (List ManifestProduct)
unfolding cons_product
add_version c [] = ok (record { id = c.product_id; name = c.name; versions = c ∷ [] } ∷ [])
add_version c (p ∷ ps) =
    let rest = add_version c ps in
    if text_eq p.id c.product_id
    then (if any (λ r. text_eq r.version c.version) p.versions
        then err conflict
        else ok (record p { versions = p.versions ++ c ∷ [] } ∷ ps))
    else cons_product p rest

abbrev pub withdraw_record : Text → Text → PublishedVersion → PublishedVersion
withdraw_record reason now r = record r {
  lifecycle = withdrawn;
  withdrawal_reason = some reason;
  withdrawn_at = some now;
}

unfoldable pub is_withdrawn : Lifecycle → Bool
is_withdrawn withdrawn = true
is_withdrawn active = false

unfoldable pub cons_version :
    PublishedVersion → PeerResult (List PublishedVersion) → PeerResult (List PublishedVersion)
cons_version r (ok rs) = ok (r ∷ rs)
cons_version r (err e) = err e

unfoldable pub withdraw_in :
    Text → Text → Text → List PublishedVersion → PeerResult (List PublishedVersion)
unfolding cons_version is_withdrawn
withdraw_in version reason now [] = err not_found
withdraw_in version reason now (r ∷ rs) =
    let rest = withdraw_in version reason now rs in
    if text_eq r.version version
    then (if is_withdrawn r.lifecycle then err conflict else ok (withdraw_record reason now r ∷ rs))
    else cons_version r rest

unfoldable pub set_versions :
    ManifestProduct
    → List ManifestProduct
    → PeerResult (List PublishedVersion)
    → PeerResult (List ManifestProduct)
set_versions p ps (ok versions) = ok (record p { versions = versions } ∷ ps)
set_versions p ps (err e) = err e

-- The edit of `withdraw_with_precondition`.
unfoldable pub withdraw_version :
    Text → Text → Text → Text → List ManifestProduct → PeerResult (List ManifestProduct)
unfolding cons_product set_versions
withdraw_version product_id version reason now [] = err not_found
withdraw_version product_id version reason now (p ∷ ps) =
    let rest = withdraw_version product_id version reason now ps in
    if text_eq p.id product_id
    then set_versions p ps (withdraw_in version reason now p.versions)
    else cons_product p rest

-- `manifest.revision += 1` on a `u64`, in a release build.
abbrev pub next_revision : ℕ → ℕ
next_revision r = (r + 1) % 2 ^ 64

unfoldable pub bump : Text → List ManifestProduct → ServingManifest → ServingManifest
bump now products m = record m {
  products = products;
  revision = next_revision m.revision;
  updated_at = now;
}
