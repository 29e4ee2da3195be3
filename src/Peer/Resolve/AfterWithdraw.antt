-- ===== src/Peer/Resolve/AfterWithdraw.antt =====
-- `resolve` in the file system that `withdraw_with_precondition` leaves.
use feather_mesh.Prelude.{
  ℕ, ◌≡◌, refl, sym, subst, ◌∙◌, Bool, true, Option, some, List, Text, text_eq_refl, ok, err, inl,
  inr, ok-injective, >>-eq-ok, >>=-eq-ok,
}
use feather_mesh.Peer.Error.{PeerError, PeerResult}
use feather_mesh.Peer.Token.{
  non_blank, validate_namespace, validate_product_id, validate_version, reference,
}
use feather_mesh.Peer.Types.{
  Project, PublishedVersion, ManifestProduct, ServingManifest, PublicationResponse,
}
use feather_mesh.Peer.Env.{Fs, External, Os}
use feather_mesh.Peer.Project.{namespace, serving_root}
use feather_mesh.Peer.Manifest.{read_manifest_at, find_record, withdraw_record, is_withdrawn, bump}
use feather_mesh.Peer.Manifest.Edits.{
  WithdrawOutcome, missing, already, done, withdraw_version-outcome, find_record-withdraw,
}
use feather_mesh.Peer.Manifest.Reading.{Codec, read_manifest-replace, read_manifest_at-IsManifest}
use feather_mesh.Peer.Mutation.{
  manifest_path, acquire, prepare_withdraw, withdraw_with_precondition,
}
use feather_mesh.Peer.Mutation.Outcome.{Withdrew, withdraw-outcome}
use feather_mesh.Peer.Resolve.{resolve}
use feather_mesh.Peer.Resolve.Local.{resolve-local_withdrawn}

found-before :
    (o : Option PublishedVersion) (s : PeerResult (List ManifestProduct))
    (qs : List ManifestProduct)
    → WithdrawOutcome o s
    → s ≡ ok qs
    → (r : PublishedVersion) × (o ≡ some r)
found-before o s qs missing h = cc
found-before o s qs (already r e) h = cc
found-before o s qs (done r a e) h = (r, refl)

prepare_withdraw-parts :
    (os : Os) (fs : Fs) (project : Project) (product_id version reason r : Text)
    → prepare_withdraw os fs project product_id version reason ≡ ok r
    → (validate_product_id product_id ≡ ok tt)
      × (validate_version version ≡ ok tt)
      × (serving_root fs project ≡ ok r)
unfolding prepare_withdraw
prepare_withdraw-parts os fs project product_id version reason r h =
    let (p, h1) = >>-eq-ok (validate_product_id product_id) _ r h in
    let (v, h2) = >>-eq-ok (validate_version version) _ r h1 in
    let (_, h3) = >>-eq-ok (non_blank "reason" reason) _ r h2 in
    let (s, a, h4) = >>=-eq-ok (serving_root fs project) _ r h3 in
    let (_, h5) = >>-eq-ok (acquire os) _ r h4 in
    (p, v, subst (λ t. serving_root fs project ≡ ok t) (ok-injective h5) a)

withdrawn-record :
    (reason now : Text) (r : PublishedVersion)
    → is_withdrawn (withdraw_record reason now r).lifecycle ≡ true
unfolding is_withdrawn
withdrawn-record reason now r = refl

module _ (x : External) (os : Os) (fs : Fs) (project : Project) (product_id version reason : Text)
    (expected_revision : Option ℕ) where
  abbrev withdrawal_answer : Fs × PeerResult PublicationResponse
  withdrawal_answer =
      withdraw_with_precondition x os fs project product_id version reason expected_revision

  Withdrew-found :
      (w : Withdrew x os fs project product_id version reason expected_revision (withdrawal_answer))
      → (r : PublishedVersion) × (find_record product_id version w.products
          ≡ some (withdraw_record reason os.now r))
  Withdrew-found w =
      let (r, e) =
        found-before _ _ w.products
          (withdraw_version-outcome product_id version reason os.now w.before.products) w.edited in
      (
        r,
        find_record-withdraw product_id version reason os.now product_id version w.before.products
              w.products w.edited
            ∙ rw (e, text_eq_refl product_id, text_eq_refl version),
      )

  Withdrew-read :
      (w : Withdrew x os fs project product_id version reason expected_revision (withdrawal_answer))
      → Codec x
      → read_manifest_at x (withdrawal_answer).0 (manifest_path w.root)
        ≡ ok (bump os.now w.products w.before)
  unfolding bump
  Withdrew-read w codec =
      let valid = read_manifest_at-IsManifest x fs (manifest_path w.root) w.before w.loaded in
      rw w.stored (
        read_manifest-replace x fs (manifest_path w.root) (bump os.now w.products w.before) w.bytes
          (record { schema = valid.schema; named = valid.named })
          (codec (bump os.now w.products w.before) w.bytes w.encoded) w.bounded)

  -- After a withdrawal that succeeds, the project resolves the version, and each of its assets, to the
  -- error `withdrawn`, if serde_json reads back what it writes, the serving root is still the same
  -- directory, and the manifest has the project's namespace.
  pub resolve-after_withdraw :
      (asset_id : Option Text) (verify : Bool) (cached : Text → Option Text)
      (response : PublicationResponse) (root : Text) (before : ServingManifest)
      → Codec x
      → (withdrawal_answer).1 ≡ ok response
      → serving_root fs project ≡ ok root
      → serving_root (withdrawal_answer).0 project ≡ ok root
      → read_manifest_at x fs (manifest_path root) ≡ ok before
      → before.namespace ≡ namespace project
      → resolve x
          (withdrawal_answer).0
          project
          (reference (namespace project) product_id)
          version
          asset_id
          verify
          cached
        ≡ err PeerError.withdrawn
  unfolding bump
  resolve-after_withdraw asset_id verify cached response root before codec answered at after loaded
        named =
      elim (withdraw-outcome x os fs project product_id version reason expected_revision) [
        | inl refused ↦ cc (refused.answered, answered)
        | inr w ↦
            let (p, v, s) =
              prepare_withdraw-parts os fs project product_id version reason w.root w.prepared in
            let here : root ≡ w.root = ok-injective (sym at ∙ s) in
            let same : before ≡ w.before = ok-injective (
              sym (subst (λ t. read_manifest_at x fs (manifest_path t) ≡ ok before) here loaded)
              ∙ w.loaded) in
            let own : w.before.namespace ≡ namespace project =
              subst (λ (m : ServingManifest). m.namespace ≡ namespace project) same named in
            let valid = read_manifest_at-IsManifest x fs (manifest_path w.root) w.before w.loaded in
            let (r, found) = Withdrew-found w in
            resolve-local_withdrawn x (withdrawal_answer).0 project product_id version w.root verify
              cached (bump os.now w.products w.before)
              (subst (λ t. validate_namespace t ≡ ok tt) own valid.named) p v
              (subst (λ t. serving_root (withdrawal_answer).0 project ≡ ok t) here after)
              (Withdrew-read w codec) own (withdraw_record reason os.now r) asset_id found
              (withdrawn-record reason os.now r)
      ]
