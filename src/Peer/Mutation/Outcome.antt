-- ===== src/Peer/Mutation/Outcome.antt =====
-- The outcomes of `publish_reviewed` and `withdraw_with_precondition`, as records.
use feather_mesh.Prelude.{
  ℕ, ◌≤◌, ◌≡◌, refl, sym, ◌⊎◌, inl, inr, Option, none, some, List, Text, text_eq, text_eq_iff,
  length, ok, err, guard, >>-eq-ok, >>=-eq-ok, guard-eq-ok, ok-injective, ◌==◌, ==_iff,
}
use feather_mesh.Peer.Error.{PeerResult, policy, conflict}
use feather_mesh.Peer.Types.{
  Project, PublishedVersion, ManifestProduct, ServingManifest, PublicationRequest,
  PublicationResponse,
}
use feather_mesh.Peer.Env.{Fs, External, Os, replace_file}
use feather_mesh.Peer.Project.{namespace}
use feather_mesh.Peer.Manifest.{
  read_manifest_at, read_or_empty_manifest, max_manifest_bytes, add_version, withdraw_version, bump,
}
use feather_mesh.Peer.Mutation.{
  manifest_path, check_fingerprint, check_revision, recheck_candidate, publication_edit,
  prepare_publish, publish_prepared, published_response, prepare_withdraw, withdraw_prepared,
  withdrawn_response, withdrawal_edit, publish_reviewed, withdraw_with_precondition,
}
use feather_mesh.Peer.Mutation.Commit.{Refused, Written, commit-outcome}

-- The revision is the one that was reviewed, if one was given.
abbrev pub IsReviewed : Option ℕ → ℕ → Type 0
IsReviewed none revision = Unit
IsReviewed (some expected) revision = expected ≡ revision

check_revision-IsReviewed :
    (expected : Option ℕ) (revision : ℕ)
    → check_revision expected revision ≡ ok tt
    → IsReviewed expected revision
unfolding check_revision
check_revision-IsReviewed none revision h = tt
check_revision-IsReviewed (some e) revision h =
    (==_iff e revision).0 (guard-eq-ok (e == revision) conflict h)

module _ (x : External) (os : Os) (fs : Fs) (root : Text) (project : Project)
    (candidate : PublishedVersion) (expected_revision : Option ℕ)
    (expected_candidate : Option Text) where
  -- What holds when the manifest `after` is about to be written.
  pub record PublicationEdit (after : ServingManifest) : Type 0 where
    pub before : ServingManifest
    pub products : List ManifestProduct
    pub fingerprinted : check_fingerprint x expected_candidate candidate ≡ ok tt
    pub loaded :
        read_or_empty_manifest x fs (manifest_path root) (namespace project) os.now ≡ ok before
    pub named : before.namespace ≡ namespace project
    pub reviewed : IsReviewed expected_revision before.revision
    pub rechecked : recheck_candidate x fs root candidate ≡ ok tt
    pub added : add_version candidate before.products ≡ ok products
    pub result : after ≡ bump os.now products before

  pub publication_edit-ok :
      (after : ServingManifest)
      → publication_edit x os fs root project candidate expected_revision expected_candidate
        ≡ ok after
      → PublicationEdit after
  unfolding publication_edit
  publication_edit-ok after h =
      let (a, h1) = >>-eq-ok (check_fingerprint x expected_candidate candidate) _ after h in
      let loading = read_or_empty_manifest x fs (manifest_path root) (namespace project) os.now in
      let (m, b, h2) = >>=-eq-ok loading _ after h1 in
      let same = text_eq m.namespace (namespace project) in
      let (c, h3) = >>-eq-ok (guard same policy) _ after h2 in
      let (d, h4) = >>-eq-ok (check_revision expected_revision m.revision) _ after h3 in
      let (e, h5) = >>-eq-ok (recheck_candidate x fs root candidate) _ after h4 in
      let (ps, f, h6) = >>=-eq-ok (add_version candidate m.products) _ after h5 in
      record {
        before = m;
        products = ps;
        fingerprinted = a;
        loaded = b;
        named = (text_eq_iff m.namespace (namespace project)).0 (guard-eq-ok same policy c);
        reviewed = check_revision-IsReviewed expected_revision m.revision d;
        rechecked = e;
        added = f;
        result = sym (ok-injective h6);
      }

module _ (x : External) (os : Os) (seen fs : Fs) (project : Project) (request : PublicationRequest)
    (expected_revision : Option ℕ) (expected_candidate : Option Text) where
  -- A publication that succeeded.
  pub record Published (answer : Fs × PeerResult PublicationResponse) : Type 0 where
    pub candidate : PublishedVersion
    pub root : Text
    pub after : ServingManifest
    pub bytes : List ℕ
    pub prepared : prepare_publish x os seen project request ≡ ok (candidate, root)
    pub edit :
        PublicationEdit x os fs root project candidate expected_revision expected_candidate after
    pub encoded : x.encode_manifest after ≡ some bytes
    pub bounded : length bytes ≤ max_manifest_bytes
    pub stored : answer.0 ≡ replace_file fs (manifest_path root) bytes
    pub answered : answer.1 ≡ ok (published_response candidate after)

  publish_prepared-outcome :
      (p : PeerResult (PublishedVersion × Text))
      → prepare_publish x os seen project request ≡ p
      → (Refused fs (publish_prepared x os fs project expected_revision expected_candidate p))
        ⊎ (Published (publish_prepared x os fs project expected_revision expected_candidate p))
  unfolding publish_prepared
  publish_prepared-outcome (err e) h = inl (record { error = e; unchanged = refl; answered = refl })
  publish_prepared-outcome (ok (c, root)) h =
      elim (commit-outcome x os fs (manifest_path root)
        (publication_edit x os fs root project c expected_revision expected_candidate)
        (published_response c)) [
          | inl r ↦ inl r
          | inr w ↦ inr (record {
            candidate = c;
            root = root;
            after = w.manifest;
            bytes = w.bytes;
            prepared = h;
            edit =
                publication_edit-ok x os fs root project c expected_revision expected_candidate
                  w.manifest w.edited;
            encoded = w.encoded;
            bounded = w.bounded;
            stored = w.stored;
            answered = w.answered;
          })
        ]

  -- A publication is refused, with an error and the file system as it was; or every check has passed
  -- and exactly the manifest file is replaced, by the manifest that holds the validated version too.
  pub publish_reviewed-outcome :
      Refused fs
        (publish_reviewed x os seen fs project request expected_revision expected_candidate)
      ⊎ Published
          (publish_reviewed x os seen fs project request expected_revision expected_candidate)
  unfolding publish_reviewed
  publish_reviewed-outcome = publish_prepared-outcome _ refl

module _ (x : External) (os : Os) (fs : Fs) (project : Project) (product_id version reason : Text)
    (expected_revision : Option ℕ) where
  -- A withdrawal that succeeded.
  pub record Withdrew (answer : Fs × PeerResult PublicationResponse) : Type 0 where
    pub root : Text
    pub before : ServingManifest
    pub products : List ManifestProduct
    pub bytes : List ℕ
    pub prepared : prepare_withdraw os fs project product_id version reason ≡ ok root
    pub loaded : read_manifest_at x fs (manifest_path root) ≡ ok before
    pub reviewed : IsReviewed expected_revision before.revision
    pub edited : withdraw_version product_id version reason os.now before.products ≡ ok products
    pub encoded : x.encode_manifest (bump os.now products before) ≡ some bytes
    pub bounded : length bytes ≤ max_manifest_bytes
    pub stored : answer.0 ≡ replace_file fs (manifest_path root) bytes
    pub answered :
        answer.1 ≡ ok (withdrawn_response product_id version (bump os.now products before))

  withdraw_committed :
      (root : Text) (answer : Fs × PeerResult PublicationResponse)
      → prepare_withdraw os fs project product_id version reason ≡ ok root
      → Written x os fs
          (manifest_path root)
          (withdrawal_edit x os fs root product_id version reason expected_revision)
          (withdrawn_response product_id version)
          answer
      → Withdrew answer
  unfolding withdrawal_edit
  withdraw_committed root answer h w =
      let (m, a, h1) =
        >>=-eq-ok (read_manifest_at x fs (manifest_path root)) _ w.manifest w.edited in
      let (b, h2) = >>-eq-ok (check_revision expected_revision m.revision) _ w.manifest h1 in
      let (ps, c, h3) =
        >>=-eq-ok (withdraw_version product_id version reason os.now m.products) _ w.manifest h2 in
      let same : bump os.now ps m ≡ w.manifest = ok-injective h3 in
      record {
        root = root;
        before = m;
        products = ps;
        bytes = w.bytes;
        prepared = h;
        loaded = a;
        reviewed = check_revision-IsReviewed expected_revision m.revision b;
        edited = c;
        encoded = rw same w.encoded;
        bounded = w.bounded;
        stored = w.stored;
        answered = rw same w.answered;
      }

  withdraw_prepared-outcome :
      (p : PeerResult Text)
      → prepare_withdraw os fs project product_id version reason ≡ p
      → Refused fs (withdraw_prepared x os fs product_id version reason expected_revision p)
        ⊎ Withdrew (withdraw_prepared x os fs product_id version reason expected_revision p)
  unfolding withdraw_prepared
  withdraw_prepared-outcome (err e) h =
      inl (record { error = e; unchanged = refl; answered = refl })
  withdraw_prepared-outcome (ok root) h =
      elim (commit-outcome x os fs (manifest_path root)
        (withdrawal_edit x os fs root product_id version reason expected_revision)
        (withdrawn_response product_id version)) [
          | inl r ↦ inl r
          | inr w ↦ inr (withdraw_committed root _ h w)
        ]

  -- A withdrawal is refused, with an error and the file system as it was; or every check has passed
  -- and exactly the manifest file is replaced, by the manifest in which the version is withdrawn.
  pub withdraw-outcome :
      Refused fs
        (withdraw_with_precondition x os fs project product_id version reason expected_revision)
      ⊎ Withdrew
          (withdraw_with_precondition x os fs project product_id version reason expected_revision)
  unfolding withdraw_with_precondition
  withdraw-outcome = withdraw_prepared-outcome _ refl
