-- ===== src/Peer/Mutation.antt =====
-- `publish_reviewed`, `withdraw_with_precondition` and `withdraw_qualified` of peer_access.rs, with
-- the lock around the read, the check and the write of the manifest.
pub mod Commit
pub mod Outcome
pub mod ReadBack
pub mod Serial
use feather_mesh.Prelude.{
  ℕ, Bool, true, false, not, ◌==◌, ◌&&◌, Option, none, some, List, [], ◌∷◌, codes, Text, text_eq,
  Result, ok, err, ◌>>=◌, ◌>>◌, guard, ok_or, for_each, if◌then◌else◌,
}
use feather_mesh.Std.FilePath.{join}
use feather_mesh.Peer.Error.{PeerError, PeerResult, json, policy, conflict, integrity}
use feather_mesh.Peer.Token.{
  non_blank, validate_product_id, validate_version, reference, parse_reference,
}
use feather_mesh.Peer.Types.{
  Project, AssetRecord, PublishedVersion, ManifestProduct, ServingManifest, PublicationRequest,
  PublicationResponse, status_published, status_withdrawn,
}
use feather_mesh.Peer.Env.{Fs, Metadata, External, Os, lift_io, exists}
use feather_mesh.Peer.Project.{namespace, serving_root, checked_asset_path}
use feather_mesh.Peer.Validation.Inspect.{sha256_file}
use feather_mesh.Peer.Validation.{validate_publication}
use feather_mesh.Peer.Manifest.{
  read_manifest_at, read_or_empty_manifest, write_manifest_atomic, add_version, withdraw_version,
  bump,
}

abbrev pub manifest_name : Text
manifest_name = codes "manifest.json"

abbrev pub manifest_path : Text → Text
manifest_path root = join root manifest_name

-- The outcome of `ManifestLock::acquire`; the lock is released on every return.
abbrev pub acquire : Os → PeerResult (Unit {0})
acquire os = elim os.lock_error [ none ↦ ok tt | some e ↦ err e ]

unfoldable pub publication_fingerprint : External → PublishedVersion → PeerResult Text
publication_fingerprint x candidate = do
  bytes ← ok_or (x.encode_version (record candidate { published_at = [] })) json
  ok (x.sha256_hex bytes)

unfoldable pub check_fingerprint : External → Option Text → PublishedVersion → PeerResult (Unit {0})
check_fingerprint x none candidate = ok tt
check_fingerprint x (some expected) candidate = do
  actual ← publication_fingerprint x candidate
  guard (text_eq actual expected) conflict

-- `expected.is_some_and(|e| e != manifest.revision)` is a conflict.
unfoldable pub check_revision : Option ℕ → ℕ → PeerResult (Unit {0})
check_revision none revision = ok tt
check_revision (some expected) revision = guard (expected == revision) conflict

unfoldable pub check_digest : External → Fs → Text → Option Text → PeerResult (Unit {0})
check_digest x fs canonical none = ok tt
check_digest x fs canonical (some expected) = do
  actual ← sha256_file x fs canonical
  guard (text_eq actual expected) integrity

unfoldable pub recheck_asset : External → Fs → Text → AssetRecord → PeerResult (Unit {0})
recheck_asset x fs root asset = do
  (displayed, canonical) ← checked_asset_path fs root root asset.path
  metadata ← lift_io (fs.metadata canonical)
  guard (metadata.len == asset.size) integrity
  check_digest x fs canonical asset.sha256

unfoldable pub recheck_candidate : External → Fs → Text → PublishedVersion → PeerResult (Unit {0})
recheck_candidate x fs root candidate = for_each (recheck_asset x fs root) candidate.assets

-- The part of `publish_reviewed` between the lock and the write: the manifest to be written.
unfoldable pub publication_edit :
    External
    → Os
    → Fs
    → Text
    → Project
    → PublishedVersion
    → Option ℕ
    → Option Text
    → PeerResult ServingManifest
publication_edit x os fs root project candidate expected_revision expected_candidate = do
  check_fingerprint x expected_candidate candidate
  manifest ← read_or_empty_manifest x fs (manifest_path root) (namespace project) os.now
  guard (text_eq manifest.namespace (namespace project)) policy
  check_revision expected_revision manifest.revision
  recheck_candidate x fs root candidate
  products ← add_version candidate manifest.products
  ok (bump os.now products manifest)

-- Every mutation ends so: the edited manifest is written, and an error writes nothing.
unfoldable pub commit :
    External
    → Os
    → Fs
    → Text
    → PeerResult ServingManifest
    → (ServingManifest → PublicationResponse)
    → Fs × PeerResult PublicationResponse
commit x os fs path (err e) respond = (fs, err e)
commit x os fs path (ok manifest) respond =
    let (fs', written) = write_manifest_atomic x os fs path manifest in
    (fs', written >> ok (respond manifest))

-- The steps before the locked section: validation, the serving root and the lock.
unfoldable pub prepare_publish :
    External → Os → Fs → Project → PublicationRequest → PeerResult (PublishedVersion × Text)
prepare_publish x os seen project request = do
  candidate ← validate_publication x seen os.now project request
  root ← serving_root seen project
  acquire os
  ok (candidate, root)

abbrev pub published_response : PublishedVersion → ServingManifest → PublicationResponse
published_response candidate m = record {
  reference = reference m.namespace candidate.product_id;
  version = candidate.version;
  manifest_revision = m.revision;
  status = status_published;
}

unfoldable pub publish_prepared :
    External
    → Os
    → Fs
    → Project
    → Option ℕ
    → Option Text
    → PeerResult (PublishedVersion × Text)
    → Fs × PeerResult PublicationResponse
publish_prepared x os fs project expected_revision expected_candidate (err e) = (fs, err e)
publish_prepared x os fs project expected_revision expected_candidate (ok (candidate, root)) =
    commit x os fs (manifest_path root)
      (publication_edit x os fs root project candidate expected_revision expected_candidate)
      (published_response candidate)

-- `seen` is the file system that validation saw, `fs` the one under the lock.
unfoldable pub publish_reviewed :
    External
    → Os
    → Fs
    → Fs
    → Project
    → PublicationRequest
    → Option ℕ
    → Option Text
    → Fs × PeerResult PublicationResponse
publish_reviewed x os seen fs project request expected_revision expected_candidate =
    publish_prepared x os fs project expected_revision expected_candidate
      (prepare_publish x os seen project request)

unfoldable pub withdrawal_edit :
    External → Os → Fs → Text → Text → Text → Text → Option ℕ → PeerResult ServingManifest
withdrawal_edit x os fs root product_id version reason expected_revision = do
  manifest ← read_manifest_at x fs (manifest_path root)
  check_revision expected_revision manifest.revision
  products ← withdraw_version product_id version reason os.now manifest.products
  ok (bump os.now products manifest)

unfoldable pub prepare_withdraw : Os → Fs → Project → Text → Text → Text → PeerResult Text
prepare_withdraw os fs project product_id version reason = do
  validate_product_id product_id
  validate_version version
  non_blank "reason" reason
  root ← serving_root fs project
  acquire os
  ok root

abbrev pub withdrawn_response : Text → Text → ServingManifest → PublicationResponse
withdrawn_response product_id version m = record {
  reference = reference m.namespace product_id;
  version = version;
  manifest_revision = m.revision;
  status = status_withdrawn;
}

unfoldable pub withdraw_prepared :
    External
    → Os
    → Fs
    → Text
    → Text
    → Text
    → Option ℕ
    → PeerResult Text
    → Fs × PeerResult PublicationResponse
withdraw_prepared x os fs product_id version reason expected_revision (err e) = (fs, err e)
withdraw_prepared x os fs product_id version reason expected_revision (ok root) =
    commit x os fs (manifest_path root)
      (withdrawal_edit x os fs root product_id version reason expected_revision)
      (withdrawn_response product_id version)

unfoldable pub withdraw_with_precondition :
    External
    → Os
    → Fs
    → Project
    → Text
    → Text
    → Text
    → Option ℕ
    → Fs × PeerResult PublicationResponse
withdraw_with_precondition x os fs project product_id version reason expected_revision =
    withdraw_prepared x os fs product_id version reason expected_revision
      (prepare_withdraw os fs project product_id version reason)

-- Only the project's own namespace may withdraw.
unfoldable pub withdraw_parsed :
    External
    → Os
    → Fs
    → Project
    → Text
    → Text
    → Option ℕ
    → PeerResult (Text × Text)
    → Fs × PeerResult PublicationResponse
withdraw_parsed x os fs project version reason expected_revision (err e) = (fs, err e)
withdraw_parsed x os fs project version reason expected_revision (ok (ns, product_id)) =
    if text_eq ns (namespace project)
    then withdraw_with_precondition x os fs project product_id version reason expected_revision
    else (fs, err policy)

unfoldable pub withdraw_qualified :
    External
    → Os
    → Fs
    → Project
    → Text
    → Text
    → Text
    → Option ℕ
    → Fs × PeerResult PublicationResponse
withdraw_qualified x os fs project qualified_reference version reason expected_revision =
    withdraw_parsed x os fs project version reason expected_revision
      (parse_reference qualified_reference)

unfoldable pub revision_at : External → Fs → Text → PeerResult ℕ
revision_at x fs path = do manifest ← read_manifest_at x fs path; ok manifest.revision

-- `local_manifest_revision`: a missing manifest has revision zero.
unfoldable pub local_manifest_revision : External → Fs → Project → PeerResult ℕ
local_manifest_revision x fs project = do
  root ← serving_root fs project
  let path = manifest_path root
  if exists fs path then revision_at x fs path else ok 0
