-- ===== src/Peer/Resolve/AfterPublish.antt =====
-- `resolve` in the file system that `publish_reviewed` leaves.
use feather_mesh.Prelude.{
  ℕ, suc, ◌≡◌, ◌≢◌, refl, sym, ap, subst, ◌∙◌, inl, inr, Bool, true, false, Option, none, some,
  List, [], ◌∷◌, Text, text_eq_refl, text_eq-false, length, All, ok, guard, >>-eq-ok, >>=-eq-ok,
  guard-eq-ok, ok-injective, ◌==◌, for_each-eq-ok,
}
use feather_mesh.Std.FilePath.{join}
use feather_mesh.Peer.Error.{PeerResult, integrity}
use feather_mesh.Peer.Token.{reference}
use feather_mesh.Peer.Types.{
  Project, AssetRecord, PublishedVersion, ServingManifest, PublicationRequest, PublicationResponse,
}
use feather_mesh.Peer.Env.{Fs, External, Os, replace_file, lift_io}
use feather_mesh.Peer.Project.{namespace, serving_root, checked_asset_path}
use feather_mesh.Peer.Project.AssetPath.{
  IsChecked, accepted-IsChecked, IsChecked-accepted, lift_io-eq-ok,
}
use feather_mesh.Peer.Validation.Inspect.{sha256_file}
use feather_mesh.Peer.Manifest.{find_record, bump}
use feather_mesh.Peer.Manifest.Reading.{Codec}
use feather_mesh.Peer.Mutation.{
  manifest_path, recheck_asset, check_digest, recheck_candidate, publish_reviewed, prepare_publish,
}
use feather_mesh.Peer.Mutation.Outcome.{Published, publish_reviewed-outcome}
use feather_mesh.Peer.Mutation.ReadBack.{
  IsCandidate, prepare_publish-IsCandidate, published-read, published-lookup,
}
use feather_mesh.Peer.Resolve.Local.{local, resolve-local}
use feather_mesh.Peer.Resolve.{
  ResolvedAsset, ResolvedProduct, resolved_asset, resolve_asset, resolve_assets, check_content,
  resolve,
}

-- The asset's file is not the one at `path`.
abbrev pub IsElsewhere : Fs → Text → Text → AssetRecord → Type 0
IsElsewhere fs root path a =
    (canonical : Text) → fs.canonicalize (join root a.path) ≡ ok canonical → canonical ≢ path

module _ (x : External) (fs : Fs) (root path : Text) (bytes : List ℕ) (verify : Bool) where
  abbrev after : Fs
  after = replace_file fs path bytes

  metadata-elsewhere : (p : Text) → p ≢ path → (after).metadata p ≡ fs.metadata p
  unfolding replace_file
  metadata-elsewhere p h = rw (text_eq-false p path h)

  read-elsewhere : (p : Text) → p ≢ path → (after).read p ≡ fs.read p
  unfolding replace_file
  read-elsewhere p h = rw (text_eq-false p path h)

  IsChecked-elsewhere :
      (relative displayed canonical : Text)
      → canonical ≢ path
      → IsChecked fs root root relative displayed canonical
      → IsChecked after root root relative displayed canonical
  unfolding replace_file
  IsChecked-elsewhere relative displayed canonical h c = record {
    validated = c.validated;
    shown = c.shown;
    resolved = c.resolved;
    contained = c.contained;
    metadata = c.metadata;
    found = metadata-elsewhere canonical h ∙ c.found;
    regular = c.regular;
  }

  check_content-ok :
      (canonical : Text) (b : Bool) (digest : Option Text)
      → canonical ≢ path
      → check_digest x fs canonical digest ≡ ok tt
      → check_content x after canonical b digest ≡ ok tt
  unfolding check_content check_digest sha256_file
  check_content-ok canonical true (some expected) h k = rw (read-elsewhere canonical h) k
  check_content-ok canonical true none h k = refl
  check_content-ok canonical false (some expected) h k = refl
  check_content-ok canonical false none h k = refl

  resolve_asset-ok :
      (ns : Text) (a : AssetRecord)
      → IsElsewhere fs root path a
      → recheck_asset x fs root a ≡ ok tt
      → (r : ResolvedAsset) × (resolve_asset x after (local root ns) verify a ≡ ok r)
  unfolding recheck_asset resolve_asset
  resolve_asset-ok ns a elsewhere h =
      let (paths, b, h1) = >>=-eq-ok (checked_asset_path fs root root a.path) _ tt h in
      let checked = accepted-IsChecked fs root root a.path paths.0 paths.1 b in
      let distinct = elsewhere paths.1 checked.resolved in
      let (m, c, h2) = >>=-eq-ok (lift_io (fs.metadata paths.1)) _ tt h1 in
      let (d, e) = >>-eq-ok (guard (m.len == a.size) integrity) _ tt h2 in
      let found = metadata-elsewhere paths.1 distinct ∙ lift_io-eq-ok (fs.metadata paths.1) m c in
      (
        resolved_asset a paths.0,
        rw
            (
              IsChecked-accepted after root root a.path paths.0 paths.1
                  (IsChecked-elsewhere a.path paths.0 paths.1 distinct checked),
              found,
              guard-eq-ok (m.len == a.size) integrity d,
              check_content-ok paths.1 verify a.sha256 distinct e,
            )
            refl,
      )

  resolve_assets-ok :
      (ns : Text) (assets : List AssetRecord)
      → All (IsElsewhere fs root path) assets
      → All (λ a. recheck_asset x fs root a ≡ ok tt) assets
      → (rs : List ResolvedAsset) × (resolve_assets x after (local root ns) verify assets ≡ ok rs)
        × (length rs ≡ length assets)
  unfolding resolve_assets
  resolve_assets-ok ns [] e h = ([], refl, refl)
  resolve_assets-ok ns (a ∷ rest) e h =
      let (r, p) = resolve_asset-ok ns a e.0 h.0 in
      let (rs, q, n) = resolve_assets-ok ns rest e.1 h.1 in (r ∷ rs, rw (p, q), ap suc n)

module _ (x : External) (os : Os) (seen fs : Fs) (project : Project) (request : PublicationRequest)
    (expected_revision : Option ℕ) (expected_candidate : Option Text) (verify : Bool)
    (cached : Text → Option Text) (response : PublicationResponse) where
  abbrev published : Fs × PeerResult PublicationResponse
  published = publish_reviewed x os seen fs project request expected_revision expected_candidate

  -- What a consumer of the project gets for the published version.
  pub record IsAvailable (c : PublishedVersion) (r : ResolvedProduct) : Type 0 where
    pub resolved :
        resolve x published.0 project
          (reference (namespace project) request.product_id)
          request.version
          none
          verify
          cached
        ≡ ok r
    pub revision : r.manifest_revision ≡ response.manifest_revision
    pub selected : r.from_record ≡ c
    pub inventory : length r.assets ≡ length c.assets

  response_revision :
      (p : Published x os seen fs project request expected_revision expected_candidate published)
      → published.1 ≡ ok response
      → p.after.revision ≡ response.manifest_revision
  response_revision p h =
      ap (λ (r : PublicationResponse). r.manifest_revision) (ok-injective (sym p.answered ∙ h))

  after-namespace :
      (p : Published x os seen fs project request expected_revision expected_candidate published)
      → p.after.namespace ≡ namespace project
  unfolding bump
  after-namespace p = ap (λ (m : ServingManifest). m.namespace) p.edit.result ∙ p.edit.named

  found-candidate :
      (p : Published x os seen fs project request expected_revision expected_candidate published)
      → IsCandidate project request p.candidate
      → Codec x
      → find_record request.product_id request.version p.after.products ≡ some p.candidate
  found-candidate p c codec =
      published-lookup x os seen fs project request expected_revision expected_candidate published
        codec p request.product_id request.version
      ∙ rw (c.product, c.version, text_eq_refl request.product_id, text_eq_refl request.version)

  available :
      (p : Published x os seen fs project request expected_revision expected_candidate published)
      → Codec x
      → published.1 ≡ ok response
      → serving_root published.0 project ≡ ok p.root
      → All (IsElsewhere fs p.root (manifest_path p.root)) p.candidate.assets
      → (r : ResolvedProduct) × IsAvailable p.candidate r
  unfolding recheck_candidate
  available p codec answered rooted elsewhere =
      let (c, _) =
        prepare_publish-IsCandidate x os seen project request p.candidate p.root p.prepared in
      let loaded =
        published-read x os seen fs project request expected_revision expected_candidate published
          codec p in
      let (rs, resolved, count) =
        resolve_assets-ok x fs p.root (manifest_path p.root) p.bytes verify (namespace project)
          p.candidate.assets elsewhere
          (for_each-eq-ok (recheck_asset x fs p.root) p.candidate.assets p.edit.rechecked) in
      (
        _,
        record {
          resolved =
              resolve-local x published.0 project request.product_id request.version p.root verify
                cached p.after c.named c.identified c.labelled rooted loaded (after-namespace p)
                p.candidate rs (found-candidate p c codec) c.live (rw p.stored resolved);
          revision = response_revision p answered;
          selected = refl;
          inventory = count;
        },
      )

  -- After a publication that succeeds, the project resolves the new version, at the revision that the
  -- publisher was told, to the validated record with all of its assets, if serde_json reads back what
  -- it writes, the serving root is still the same directory, and no asset is the manifest itself.
  pub resolve-after_publish :
      (c : PublishedVersion) (root : Text)
      → prepare_publish x os seen project request ≡ ok (c, root)
      → Codec x
      → published.1 ≡ ok response
      → serving_root published.0 project ≡ ok root
      → All (IsElsewhere fs root (manifest_path root)) c.assets
      → (r : ResolvedProduct) × IsAvailable c r
  resolve-after_publish c root prepared codec answered rooted elsewhere =
      elim (publish_reviewed-outcome x os seen fs project request expected_revision
        expected_candidate) [
          | inl refused ↦ cc (refused.answered, answered)
          | inr p ↦
              let same = ok-injective (sym prepared ∙ p.prepared) in
              subst (λ (t : PublishedVersion × Text). (r : ResolvedProduct) × IsAvailable t.0 r)
                (sym same)
                (available p codec answered
                  (subst
                    (λ (t : PublishedVersion × Text). serving_root published.0 project ≡ ok t.1)
                    same rooted)
                  (subst
                    (λ (t : PublishedVersion × Text).
                      All (IsElsewhere fs t.1 (manifest_path t.1)) t.0.assets)
                    same elsewhere))
        ]
