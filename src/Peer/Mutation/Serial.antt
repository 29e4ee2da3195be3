-- ===== src/Peer/Mutation/Serial.antt =====
-- Histories of `publish_reviewed` and `withdraw_with_precondition`, one after the other under the lock,
-- and the revisions that their callers have reviewed.
use feather_mesh.Prelude.{
  ℕ, zero, suc, ◌+◌, ◌^◌, ◌≤◌, ◌<◌, ◌≡◌, refl, sym, ap, subst, ◌∙◌, ◌⊎◌, inl, inr, Option, some,
  arith, Text, ok, ok-injective, >>=-eq-ok, >>-eq-ok,
}
use feather_mesh.Peer.Error.{PeerResult}
use feather_mesh.Peer.Token.{validate_product_id, validate_version, non_blank}
use feather_mesh.Peer.Types.{Project, ServingManifest, PublicationRequest, PublicationResponse}
use feather_mesh.Peer.Env.{Fs, External, Os, replace_file}
use feather_mesh.Peer.Project.{namespace, serving_root}
use feather_mesh.Peer.Manifest.{
  read_manifest_at, read_or_empty_manifest, empty_if_missing, bump, next_revision,
}
use feather_mesh.Peer.Manifest.Reading.{Codec, read_manifest-replace, read_manifest_at-IsManifest}
use feather_mesh.Peer.Mutation.{
  manifest_path, publish_reviewed, withdraw_with_precondition, prepare_withdraw, acquire,
}
use feather_mesh.Peer.Mutation.Commit.{Refused}
use feather_mesh.Peer.Mutation.Outcome.{
  Published, Withdrew, publish_reviewed-outcome, withdraw-outcome, IsReviewed,
}
use feather_mesh.Peer.Mutation.ReadBack.{published-read, prepare_publish-IsCandidate}

-- A mutation of a project's manifest, with what its caller observed.
pub data Mutation : Type 0 where
  publication : Os → Fs → PublicationRequest → Option ℕ → Option Text → Mutation
  withdrawal : Os → Text → Text → Text → Option ℕ → Mutation

-- The revision that the caller has reviewed.
abbrev pub reviewed : Mutation → Option ℕ
reviewed (publication os seen request expected fingerprint) = expected
reviewed (withdrawal os product_id version reason expected) = expected

module _ (x : External) (project : Project) (root : Text) where
  abbrev pub apply : Mutation → Fs → Fs × PeerResult PublicationResponse
  apply (publication os seen request expected fingerprint) fs =
      publish_reviewed x os seen fs project request expected fingerprint
  apply (withdrawal os product_id version reason expected) fs =
      withdraw_with_precondition x os fs project product_id version reason expected

  -- The mutation works on the manifest in `root`.
  abbrev pub IsAt : Mutation → Fs → Type 0
  IsAt (publication os seen request expected fingerprint) fs = serving_root seen project ≡ ok root
  IsAt (withdrawal os product_id version reason expected) fs = serving_root fs project ≡ ok root

  -- `n` mutations, refused or not, one after the other as the lock lets them.
  pub data History : ℕ → Fs → Fs → Type 0 where
    start : {fs : Fs} → History zero fs fs
    then_apply :
        {n : ℕ} {fs fs' fs'' : Fs}
        → History n fs fs'
        → (o : Mutation) → IsAt o fs'
        → (apply o fs').0 ≡ fs''
        → History (suc n) fs fs''

  -- The manifest in `root` can be read, and has this revision.
  pub record IsCurrent (fs : Fs) (revision : ℕ) : Type 0 where
    pub manifest : ServingManifest
    pub loaded : read_manifest_at x fs (manifest_path root) ≡ ok manifest
    pub numbered : manifest.revision ≡ revision

  -- A committed mutation was reviewed against the revision that it found, and leaves the next one.
  pub record IsCommitted (o : Mutation) (fs : Fs) : Type 0 where
    pub found : ℕ
    pub matched : IsReviewed (reviewed o) found
    pub consistent : (r : ℕ) → IsCurrent fs r → r ≡ found
    pub current : IsCurrent (apply o fs).0 (next_revision found)

  read_or_empty-current :
      (os : Os) (fs : Fs) (m : ServingManifest) (r : ℕ)
      → read_or_empty_manifest x fs (manifest_path root) (namespace project) os.now ≡ ok m
      → IsCurrent fs r
      → r ≡ m.revision
  unfolding read_or_empty_manifest empty_if_missing
  read_or_empty-current os fs m r h c =
      sym c.numbered
      ∙ ap (λ (t : ServingManifest). t.revision)
          (ok-injective (rw (read_or_empty_manifest, empty_if_missing, c.loaded) at h))

  prepare_withdraw-root :
      (os : Os) (fs : Fs) (product_id version reason r : Text)
      → prepare_withdraw os fs project product_id version reason ≡ ok r
      → serving_root fs project ≡ ok r
  unfolding prepare_withdraw
  prepare_withdraw-root os fs product_id version reason r h =
      let (_, h1) = >>-eq-ok (validate_product_id product_id) _ r h in
      let (_, h2) = >>-eq-ok (validate_version version) _ r h1 in
      let (_, h3) = >>-eq-ok (non_blank "reason" reason) _ r h2 in
      let (s, a, h4) = >>=-eq-ok (serving_root fs project) _ r h3 in
      let (_, h5) = >>-eq-ok (acquire os) _ r h4 in
      subst (λ t. serving_root fs project ≡ ok t) (ok-injective h5) a

  module _ (codec : Codec x) where
    publication-IsCommitted :
        (os : Os) (seen : Fs) (request : PublicationRequest) (expected : Option ℕ)
        (fingerprint : Option Text) (fs : Fs)
        → Published x os seen fs project request expected fingerprint
            (publish_reviewed x os seen fs project request expected fingerprint)
        → serving_root seen project ≡ ok root
        → IsCommitted (publication os seen request expected fingerprint) fs
    unfolding bump
    publication-IsCommitted os seen request expected fingerprint fs p rooted =
        let (_, r) =
          prepare_publish-IsCandidate x os seen project request p.candidate p.root p.prepared in
        let same : p.root ≡ root = ok-injective (sym r ∙ rooted) in
        record {
          found = p.edit.before.revision;
          matched = p.edit.reviewed;
          consistent = λ n c.
              read_or_empty-current os fs p.edit.before n
                (subst
                  (λ t.
                    read_or_empty_manifest x fs (manifest_path t) (namespace project) os.now
                    ≡ ok p.edit.before)
                  same p.edit.loaded)
                c;
          current = record {
            manifest = p.after;
            loaded =
                subst
                  (λ t.
                    read_manifest_at x
                      (publish_reviewed x os seen fs project request expected fingerprint).0
                      (manifest_path t)
                    ≡ ok p.after)
                  same (published-read x os seen fs project request expected fingerprint _ codec p);
            numbered = ap (λ (m : ServingManifest). m.revision) p.edit.result;
          };
        }

    withdrawal-IsCommitted :
        (os : Os) (product_id version reason : Text) (expected : Option ℕ) (fs : Fs)
        → Withdrew x os fs project product_id version reason expected
            (withdraw_with_precondition x os fs project product_id version reason expected)
        → serving_root fs project ≡ ok root
        → IsCommitted (withdrawal os product_id version reason expected) fs
    unfolding bump
    withdrawal-IsCommitted os product_id version reason expected fs w rooted =
        let same : w.root ≡ root = ok-injective (
          sym (prepare_withdraw-root os fs product_id version reason w.root w.prepared) ∙ rooted) in
        let loaded : read_manifest_at x fs (manifest_path root) ≡ ok w.before =
          subst (λ t. read_manifest_at x fs (manifest_path t) ≡ ok w.before) same w.loaded in
        let valid = read_manifest_at-IsManifest x fs (manifest_path root) w.before loaded in
        record {
          found = w.before.revision;
          matched = w.reviewed;
          consistent = λ n c.
              sym c.numbered
              ∙ ap (λ (t : ServingManifest). t.revision) (ok-injective (sym c.loaded ∙ loaded));
          current = record {
            manifest = bump os.now w.products w.before;
            loaded = rw w.stored (
                subst
                  (λ t.
                    read_manifest_at x (replace_file fs (manifest_path t) w.bytes)
                      (manifest_path root)
                    ≡ ok (bump os.now w.products w.before))
                  (sym same)
                  (read_manifest-replace x fs (manifest_path root) _ w.bytes
                    (record { schema = valid.schema; named = valid.named })
                    (codec _ w.bytes w.encoded) w.bounded));
            numbered = refl;
          };
        }

    apply-outcome :
        (o : Mutation) (fs : Fs) → IsAt o fs → Refused fs (apply o fs) ⊎ IsCommitted o fs
    apply-outcome (publication os seen request expected fingerprint) fs at =
        elim (publish_reviewed-outcome x os seen fs project request expected fingerprint) [
          | inl r ↦ inl r
          | inr p ↦ inr (publication-IsCommitted os seen request expected fingerprint fs p at)
        ]
    apply-outcome (withdrawal os product_id version reason expected) fs at =
        elim (withdraw-outcome x os fs project product_id version reason expected) [
          | inl r ↦ inl r
          | inr w ↦ inr (withdrawal-IsCommitted os product_id version reason expected fs w at)
        ]

    -- After `n` mutations, refused or not, of a manifest that can be read, the manifest can be read and its
    -- revision has grown by at most `n`, if serde_json reads back what it writes and the revisions stay
    -- below 2^64.
    pub History-IsCurrent :
        {n : ℕ} {fs fs' : Fs} (r : ℕ)
        → History n fs fs'
        → IsCurrent fs r
        → r + n < 2 ^ 64
        → (k : ℕ) × (k ≤ n) × IsCurrent fs' (r + k)
    History-IsCurrent r start c bound = (0, omega arith, subst (IsCurrent _) (omega arith) c)
    History-IsCurrent r (then_apply {n = n} {fs' = fs'} h o at e) c bound =
        let (k, le, c') = History-IsCurrent r h c (omega arith) in
        elim (apply-outcome o fs' at) [
          | inl refused ↦
              (k, omega arith, subst (λ t. IsCurrent t (r + k)) (sym refused.unchanged ∙ e) c')
          | inr done ↦
              let next : next_revision done.found ≡ r + (k + 1) =
                omega (arith, done.consistent (r + k) c') in
              (
                k + 1,
                omega arith,
                subst (λ t. IsCurrent t (r + (k + 1))) e (subst (IsCurrent _) next done.current),
              )
        ]

    -- Once a mutation that was reviewed against revision `e` is committed, no other mutation that was
    -- reviewed against `e` is: whatever happens in between, it is refused and changes nothing, if
    -- serde_json reads back what it writes and the revisions stay below 2^64.
    pub reviewed_revision_once :
        {n : ℕ} (e : ℕ) (o o' : Mutation) (fs fs' : Fs) (response : PublicationResponse)
        → reviewed o ≡ some e
        → reviewed o' ≡ some e
        → IsAt o fs
        → (apply o fs).1 ≡ ok response
        → History n (apply o fs).0 fs'
        → IsAt o' fs'
        → e + 1 + n < 2 ^ 64
        → Refused fs' (apply o' fs')
    reviewed_revision_once e o o' fs fs' response first second at answered history at' bound =
        elim (apply-outcome o fs at) [
          | inl refused ↦ cc (refused.answered, answered)
          | inr done ↦
              let found : e ≡ done.found =
                subst (λ t. IsReviewed t done.found) first done.matched in
              let next : next_revision done.found ≡ e + 1 = omega (arith, found) in
              let (k, le, c) =
                History-IsCurrent (e + 1) history (subst (IsCurrent _) next done.current) bound in
              elim (apply-outcome o' fs' at') [
                | inl refused ↦ refused
                | inr again ↦
                    let stale : e ≡ again.found =
                      subst (λ t. IsReviewed t again.found) second again.matched in
                    absurd (omega (arith, stale, again.consistent (e + 1 + k) c))
              ]
        ]
