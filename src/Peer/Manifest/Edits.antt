-- ===== src/Peer/Manifest/Edits.antt =====
-- What the two edits of a manifest's products mean for a reader that looks up one version.
use feather_mesh.Prelude.{
  ◌≡◌, ◌↔◌, Option-cases, refl, subst, ok-injective, Bool, true, false, ◌&&◌, Option, none, some,
  List, [], ◌∷◌, ◌++◌, arith, Text, text_eq, text_eq_iff, any, find, ok, err, if◌then◌else◌,
  Bool-cases, Result-cases, inl, inr,
}
use mathlib.Core.Option
use feather_mesh.Peer.Error.{PeerResult, conflict, not_found}
use feather_mesh.Peer.Types.{PublishedVersion, ManifestProduct, Lifecycle, active, withdrawn}
use feather_mesh.Peer.Manifest.{
  find_record, cons_product, add_version, withdraw_record, is_withdrawn, cons_version, withdraw_in,
  set_versions, withdraw_version,
}

-- `find` in a product's versions.
abbrev find_version : Text → List PublishedVersion → Option PublishedVersion
find_version v rs = find (λ r. text_eq r.version v) rs

abbrev has_version : Text → List PublishedVersion → Bool
has_version v rs = any (λ r. text_eq r.version v) rs

find-append :
    (c : PublishedVersion) (v : Text) (rs : List PublishedVersion)
    → has_version c.version rs ≡ false
    → find_version v (rs ++ c ∷ []) ≡ (if text_eq c.version v then some c else find_version v rs)
find-append c v [] h = refl
find-append c v (r ∷ rs) h = ground (
  arith,
  find-append c v rs,
  text_eq_iff r.version v,
  text_eq_iff r.version c.version,
  text_eq_iff c.version v,
)

find-has :
    (v : Text) (rs : List PublishedVersion) → find_version v rs ≡ none → has_version v rs ≡ false
find-has v [] h = refl
find-has v (r ∷ rs) h = ground (arith, find-has v rs)

has-find :
    (v : Text) (rs : List PublishedVersion) {r : PublishedVersion}
    → find_version v rs ≡ some r
    → has_version v rs ≡ true
has-find v [] h = cc
has-find v (r ∷ rs) {r = q} h = ground (arith, has-find v rs {r = q})

-- The record that a lookup of one key finds after the edit.
abbrev pub looked_up :
    PublishedVersion → Text → Text → List ManifestProduct → Option PublishedVersion
looked_up c product_id version ps =
    if text_eq c.product_id product_id && text_eq c.version version
    then some c
    else find_record product_id version ps

-- After a version is added, the lookup of its key finds it, and every other key is found as before.
pub find_record-add :
    (c : PublishedVersion) (product_id version : Text) (ps qs : List ManifestProduct)
    → add_version c ps ≡ ok qs
    → find_record product_id version qs ≡ looked_up c product_id version ps
unfolding add_version find_record
find_record-add c i v [] qs h =
    subst (λ t. find_record i v t ≡ looked_up c i v []) (ok-injective h) (ground arith)
find_record-add c i v (p ∷ ps) qs h = elim (Result-cases (add_version c ps)) [
  | inl (rs, e) ↦ ground (
    arith,
    e,
    find_record-add c i v ps rs e,
    find-append c v p.versions,
    text_eq_iff p.id i,
    text_eq_iff p.id c.product_id,
    text_eq_iff c.product_id i,
  )
  | inr (b, e) ↦ ground (
    arith,
    e,
    find-append c v p.versions,
    text_eq_iff p.id i,
    text_eq_iff p.id c.product_id,
    text_eq_iff c.product_id i,
  )
]

add_version-absent :
    (c : PublishedVersion) (ps : List ManifestProduct)
    → find_record c.product_id c.version ps ≡ none
    → (qs : List ManifestProduct) × (add_version c ps ≡ ok qs)
unfolding add_version find_record
add_version-absent c [] h = (_, refl)
add_version-absent c (p ∷ ps) h = elim (Bool-cases (text_eq p.id c.product_id)) [
  | inl e ↦ (
    record p { versions = p.versions ++ c ∷ [] } ∷ ps,
    rw (e, find-has c.version p.versions (rw e at h)),
  )
  | inr e ↦ let (qs, q) = add_version-absent c ps (rw e at h) in (p ∷ qs, rw (e, q))
]

add_version-present :
    (c r : PublishedVersion) (ps : List ManifestProduct)
    → find_record c.product_id c.version ps ≡ some r
    → add_version c ps ≡ err conflict
unfolding add_version find_record
add_version-present c r [] h = cc
add_version-present c r (p ∷ ps) h = elim (Bool-cases (text_eq p.id c.product_id)) [
  | inl e ↦ rw (e, has-find c.version p.versions (rw e at h))
  | inr e ↦ rw (e, add_version-present c r ps (rw e at h))
]

-- A version can be added exactly if the manifest has no record for its product and version: a label
-- that was published, withdrawn or not, is never published again.
pub add_version_iff :
    (c : PublishedVersion) (ps : List ManifestProduct)
    → ((qs : List ManifestProduct) × (add_version c ps ≡ ok qs))
      ↔ (find_record c.product_id c.version ps ≡ none)
add_version_iff c ps = (
  λ added. elim (Option-cases (find_record c.product_id c.version ps)) [
    | inl absent ↦ absent
    | inr (r, present) ↦ let (qs, e) = added in cc (add_version-present c r ps present, e)
  ],
  λ absent. add_version-absent c ps absent,
)

find-withdraw :
    (version v reason now : Text) (rs qs : List PublishedVersion)
    → withdraw_in version reason now rs ≡ ok qs
    → find_version v qs ≡ (
        if text_eq version v
        then Option.map (withdraw_record reason now) (find_version v rs)
        else find_version v rs)
unfolding withdraw_in
find-withdraw version v reason now [] qs h = cc
find-withdraw version v reason now (r ∷ rs) qs h =
    elim (Result-cases (withdraw_in version reason now rs)) [
      | inl (ts, e) ↦ ground (
        arith,
        e,
        find-withdraw version v reason now rs ts e,
        text_eq_iff r.version v,
        text_eq_iff r.version version,
        text_eq_iff version v,
      )
      | inr (b, e) ↦
          ground (
            arith,
            e,
            text_eq_iff r.version v,
            text_eq_iff r.version version,
            text_eq_iff version v,
          )
    ]

-- After a withdrawal the version is found withdrawn, with the reason and the time; every other key is
-- found as before.
pub find_record-withdraw :
    (product_id version reason now i v : Text) (ps qs : List ManifestProduct)
    → withdraw_version product_id version reason now ps ≡ ok qs
    → find_record i v qs ≡ (
        if text_eq product_id i && text_eq version v
        then Option.map (withdraw_record reason now) (find_record i v ps)
        else find_record i v ps)
unfolding withdraw_version find_record
find_record-withdraw product_id version reason now i v [] qs h = cc
find_record-withdraw product_id version reason now i v (p ∷ ps) qs h =
    elim (Bool-cases (text_eq p.id product_id)) [
      | inl same ↦ elim (Result-cases (withdraw_in version reason now p.versions)) [
        | inl (vs, e) ↦ ground (
          arith,
          e,
          same,
          find-withdraw version v reason now p.versions vs e,
          text_eq_iff p.id i,
          text_eq_iff p.id product_id,
          text_eq_iff product_id i,
        )
        | inr (b, e) ↦ cc (rw (same, e) at h)
      ]
      | inr other ↦ elim (Result-cases (withdraw_version product_id version reason now ps)) [
        | inl (rs, e) ↦ ground (
          arith,
          e,
          other,
          find_record-withdraw product_id version reason now i v ps rs e,
          text_eq_iff p.id i,
          text_eq_iff p.id product_id,
          text_eq_iff product_id i,
        )
        | inr (b, e) ↦ cc (rw (other, e) at h)
      ]
    ]

-- How the outcome of a withdrawal depends on the record that stands under its key.
pub data WithdrawOutcome {A : Type 0} : Option PublishedVersion → PeerResult A → Type 0 where
  missing : WithdrawOutcome none (err not_found)
  already :
      (r : PublishedVersion) → r.lifecycle ≡ withdrawn → WithdrawOutcome (some r) (err conflict)
  done : (r : PublishedVersion) (a : A) → r.lifecycle ≡ active → WithdrawOutcome (some r) (ok a)

withdraw_here :
    (reason now : Text) (r : PublishedVersion) (rs : List PublishedVersion) (l : Lifecycle)
    → r.lifecycle ≡ l
    → WithdrawOutcome
        (some r)
        (if is_withdrawn l then err conflict else ok (withdraw_record reason now r ∷ rs))
unfolding is_withdrawn
withdraw_here reason now r rs active e = done r _ e
withdraw_here reason now r rs withdrawn e = already r e

cons_version-outcome :
    (r : PublishedVersion) (o : Option PublishedVersion) (s : PeerResult (List PublishedVersion))
    → WithdrawOutcome o s
    → WithdrawOutcome o (cons_version r s)
unfolding cons_version
cons_version-outcome r o s missing = missing
cons_version-outcome r o s (already q e) = already q e
cons_version-outcome r o s (done q a e) = done q (r ∷ a) e

set_versions-outcome :
    (p : ManifestProduct) (ps : List ManifestProduct) (o : Option PublishedVersion)
    (s : PeerResult (List PublishedVersion))
    → WithdrawOutcome o s
    → WithdrawOutcome o (set_versions p ps s)
unfolding set_versions
set_versions-outcome p ps o s missing = missing
set_versions-outcome p ps o s (already q e) = already q e
set_versions-outcome p ps o s (done q a e) = done q _ e

cons_product-outcome :
    (p : ManifestProduct) (o : Option PublishedVersion) (s : PeerResult (List ManifestProduct))
    → WithdrawOutcome o s
    → WithdrawOutcome o (cons_product p s)
unfolding cons_product
cons_product-outcome p o s missing = missing
cons_product-outcome p o s (already q e) = already q e
cons_product-outcome p o s (done q a e) = done q (p ∷ a) e

withdraw_in-outcome :
    (version reason now : Text) (rs : List PublishedVersion)
    → WithdrawOutcome (find_version version rs) (withdraw_in version reason now rs)
unfolding withdraw_in
withdraw_in-outcome version reason now [] = missing
withdraw_in-outcome version reason now (r ∷ rs) = elim (Bool-cases (text_eq r.version version)) [
  | inl e ↦ rw e (withdraw_here reason now r rs r.lifecycle refl)
  | inr e ↦ rw e (cons_version-outcome r _ _ (withdraw_in-outcome version reason now rs))
]

-- A withdrawal fails with `not_found` for a version that is not there, with `conflict` for one that is
-- withdrawn, and succeeds for one that is active.
pub withdraw_version-outcome :
    (product_id version reason now : Text) (ps : List ManifestProduct)
    → WithdrawOutcome
        (find_record product_id version ps)
        (withdraw_version product_id version reason now ps)
unfolding withdraw_version find_record
withdraw_version-outcome product_id version reason now [] = missing
withdraw_version-outcome product_id version reason now (p ∷ ps) =
    elim (Bool-cases (text_eq p.id product_id)) [
      | inl e ↦
          rw e (set_versions-outcome p ps _ _ (withdraw_in-outcome version reason now p.versions))
      | inr e ↦
          rw e
            (cons_product-outcome p _ _ (withdraw_version-outcome product_id version reason now ps))
    ]
