-- ===== src/Peer/Mutation/ReadBack.antt =====
-- A reader after a publication: the manifest that was written is the one that is read.
use feather_mesh.Prelude.{
  ℕ, ◌≡◌, sym, ap, subst, Option, Text, text_eq, text_eq_iff, ok, guard, >>-eq-ok, >>=-eq-ok,
  guard-eq-ok, any, ok-injective, ◌==◌,
}
use feather_mesh.Peer.Error.{PeerResult, policy, validation}
use feather_mesh.Peer.Token.{validate_namespace, validate_product_id, validate_version}
use feather_mesh.Peer.Types.{
  Project, PublishedVersion, PublicationRequest, PublicationResponse, active,
}
use feather_mesh.Peer.Env.{Fs, External, Os}
use feather_mesh.Peer.Project.{namespace, serving_root}
use feather_mesh.Peer.Validation.{
  validate_publication, validate_publication_fields, validate_assets, merge_descriptors,
  empty_inventory,
}
use feather_mesh.Peer.Manifest.{read_manifest_at, find_record, bump}
use feather_mesh.Peer.Manifest.Reading.{Codec, read_manifest-replace, read_or_empty-IsManifest}
use feather_mesh.Peer.Manifest.Edits.{find_record-add, looked_up}
use feather_mesh.Peer.Mutation.{manifest_path, prepare_publish, acquire}
use feather_mesh.Peer.Mutation.Outcome.{Published}

-- What a validated candidate shares with its request.
pub record IsCandidate (project : Project) (request : PublicationRequest) (c : PublishedVersion)
    : Type 0 where
  pub named : validate_namespace (namespace project) ≡ ok tt
  pub identified : validate_product_id request.product_id ≡ ok tt
  pub labelled : validate_version request.version ≡ ok tt
  pub product : c.product_id ≡ request.product_id
  pub version : c.version ≡ request.version
  pub live : c.lifecycle ≡ active

pub validate_publication-IsCandidate :
    (x : External) (fs : Fs) (now : Text) (project : Project) (request : PublicationRequest)
    (c : PublishedVersion)
    → validate_publication x fs now project request ≡ ok c
    → IsCandidate project request c
unfolding validate_publication validate_publication_fields
validate_publication-IsCandidate x fs now project request c h =
    let (a, h1) = >>-eq-ok (validate_publication_fields x project request) _ c h in
    let (root, b, h2) = >>=-eq-ok (serving_root fs project) _ c h1 in
    let (inv, d, h3) =
      >>=-eq-ok (validate_assets x fs request root request.assets empty_inventory) _ c h2 in
    let (parts, e, h4) = >>=-eq-ok (merge_descriptors x request inv) _ c h3 in
    let same = ok-injective h4 in
    let (f, a1) =
      >>-eq-ok (guard (request.schema_version == 1) (validation "schema_version")) _ tt a in
    let owned = text_eq request.namespace (namespace project) in
    let (g, a2) = >>-eq-ok (guard owned policy) _ tt a1 in
    let (_, a3) =
      >>-eq-ok
        (guard (any (λ team. text_eq team request.owner_team) project.config.owner_teams) policy) _
        tt a2 in
    let (n, a4) = >>-eq-ok (validate_namespace request.namespace) _ tt a3 in
    let (p, a5) = >>-eq-ok (validate_product_id request.product_id) _ tt a4 in
    let (v, _) = >>-eq-ok (validate_version request.version) _ tt a5 in
    record {
      named =
          subst (λ t. validate_namespace t ≡ ok tt)
            ((text_eq_iff request.namespace (namespace project)).0 (guard-eq-ok owned policy g)) n;
      identified = p;
      labelled = v;
      product = sym (ap (λ (t : PublishedVersion). t.product_id) same);
      version = sym (ap (λ (t : PublishedVersion). t.version) same);
      live = sym (ap (λ (t : PublishedVersion). t.lifecycle) same);
    }

pub prepare_publish-IsCandidate :
    (x : External) (os : Os) (seen : Fs) (project : Project) (request : PublicationRequest)
    (c : PublishedVersion) (root : Text)
    → prepare_publish x os seen project request ≡ ok (c, root)
    → IsCandidate project request c × (serving_root seen project ≡ ok root)
unfolding prepare_publish
prepare_publish-IsCandidate x os seen project request c root h =
    let (d, a, h1) = >>=-eq-ok (validate_publication x seen os.now project request) _ (c, root) h in
    let (r, b, h2) = >>=-eq-ok (serving_root seen project) _ (c, root) h1 in
    let (_, h3) = >>-eq-ok (acquire os) _ (c, root) h2 in
    let same = ok-injective h3 in
    (
      subst (IsCandidate project request) (ap (λ (t : PublishedVersion × Text). t.0) same)
          (validate_publication-IsCandidate x seen os.now project request d a),
      subst (λ t. serving_root seen project ≡ ok t) (ap (λ (t : PublishedVersion × Text). t.1) same)
          b,
    )

module _ (x : External) (os : Os) (seen fs : Fs) (project : Project) (request : PublicationRequest)
    (expected_revision : Option ℕ) (expected_candidate : Option Text)
    (answer : Fs × PeerResult PublicationResponse) (codec : Codec x)
    (p : Published x os seen fs project request expected_revision expected_candidate answer) where
  pub published-read : read_manifest_at x answer.0 (manifest_path p.root) ≡ ok p.after
  unfolding bump
  published-read =
      let candidate =
        prepare_publish-IsCandidate x os seen project request p.candidate p.root p.prepared in
      let before =
        read_or_empty-IsManifest x fs (manifest_path p.root) (namespace project) os.now
          p.edit.before candidate.0.named p.edit.loaded in
      rw p.stored (
        read_manifest-replace x fs (manifest_path p.root) p.after p.bytes
          (rw p.edit.result (record { schema = before.schema; named = before.named }))
          (codec p.after p.bytes p.encoded) p.bounded)

  pub published-lookup :
      (product_id version : Text)
      → find_record product_id version p.after.products
        ≡ looked_up p.candidate product_id version p.edit.before.products
  unfolding bump
  published-lookup i v =
      rw p.edit.result
        (find_record-add p.candidate i v p.edit.before.products p.edit.products p.edit.added)
