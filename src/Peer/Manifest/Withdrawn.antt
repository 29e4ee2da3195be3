-- ===== src/Peer/Manifest/Withdrawn.antt =====
-- Well-formed product lists under `withdraw_version`.
use feather_mesh.Prelude.{
  ◌≡◌, refl, List, [], ◌∷◌, arith, Text, text_eq, All, ok, Bool-cases, Result-cases, inl, inr,
  subst, ok-injective,
}
use feather_mesh.Peer.Types.{PublishedVersion, ManifestProduct}
use feather_mesh.Peer.Manifest.{is_withdrawn, withdraw_in, withdraw_version}
use feather_mesh.Peer.Manifest.WellFormed.{
  VersionsDistinct, IsProduct, WellFormed, has_version, has_product,
}

module _ (version reason now : Text) where
  has_version-withdraw :
      (v : Text) (rs qs : List PublishedVersion)
      → withdraw_in version reason now rs ≡ ok qs
      → has_version v qs ≡ has_version v rs
  unfolding withdraw_in
  has_version-withdraw v [] qs h = cc
  has_version-withdraw v (r ∷ rs) qs h = elim (Result-cases (withdraw_in version reason now rs)) [
    | inl (ts, e) ↦ ground (arith, e, has_version-withdraw v rs ts e)
    | inr (b, e) ↦ ground (arith, e)
  ]

  VersionsDistinct-withdraw :
      (rs qs : List PublishedVersion)
      → VersionsDistinct rs
      → withdraw_in version reason now rs ≡ ok qs
      → VersionsDistinct qs
  unfolding withdraw_in
  VersionsDistinct-withdraw [] qs d h = cc
  VersionsDistinct-withdraw (r ∷ rs) qs d h = elim (Bool-cases (text_eq r.version version)) [
    | inl same ↦ elim (Bool-cases (is_withdrawn r.lifecycle)) [
      | inl gone ↦ cc (rw (same, gone) at h)
      | inr live ↦ subst VersionsDistinct (ok-injective (rw (same, live) at h)) d
    ]
    | inr other ↦ elim (Result-cases (withdraw_in version reason now rs)) [
      | inl (ts, e) ↦
          subst VersionsDistinct (ok-injective (rw (other, e) at h))
            (rw (has_version-withdraw r.version rs ts e) d.0, VersionsDistinct-withdraw rs ts d.1 e)
      | inr (b, e) ↦ cc (rw (other, e) at h)
    ]
  ]

  owned-withdraw :
      (i : Text) (rs qs : List PublishedVersion)
      → All (λ r. r.product_id ≡ i) rs
      → withdraw_in version reason now rs ≡ ok qs
      → All (λ r. r.product_id ≡ i) qs
  unfolding withdraw_in
  owned-withdraw i [] qs o h = cc
  owned-withdraw i (r ∷ rs) qs o h = elim (Bool-cases (text_eq r.version version)) [
    | inl same ↦ elim (Bool-cases (is_withdrawn r.lifecycle)) [
      | inl gone ↦ cc (rw (same, gone) at h)
      | inr live ↦ subst (All (λ s. s.product_id ≡ i)) (ok-injective (rw (same, live) at h)) o
    ]
    | inr other ↦ elim (Result-cases (withdraw_in version reason now rs)) [
      | inl (ts, e) ↦
          subst (All (λ s. s.product_id ≡ i)) (ok-injective (rw (other, e) at h))
            (o.0, owned-withdraw i rs ts o.1 e)
      | inr (b, e) ↦ cc (rw (other, e) at h)
    ]
  ]

  IsProduct-withdraw :
      (p : ManifestProduct) (qs : List PublishedVersion)
      → IsProduct p
      → withdraw_in version reason now p.versions ≡ ok qs
      → IsProduct (record p { versions = qs })
  IsProduct-withdraw p qs w e = record {
    distinct = VersionsDistinct-withdraw p.versions qs w.distinct e;
    owned = owned-withdraw p.id p.versions qs w.owned e;
  }

  module _ (product_id : Text) where
    has_product-withdraw :
        (i : Text) (ps qs : List ManifestProduct)
        → withdraw_version product_id version reason now ps ≡ ok qs
        → has_product i qs ≡ has_product i ps
    unfolding withdraw_version
    has_product-withdraw i [] qs h = cc
    has_product-withdraw i (p ∷ ps) qs h = elim (Bool-cases (text_eq p.id product_id)) [
      | inl same ↦ elim (Result-cases (withdraw_in version reason now p.versions)) [
        | inl (vs, e) ↦
            subst (λ t. has_product i t ≡ has_product i (p ∷ ps)) (ok-injective (rw (same, e) at h))
              refl
        | inr (b, e) ↦ cc (rw (same, e) at h)
      ]
      | inr other ↦ elim (Result-cases (withdraw_version product_id version reason now ps)) [
        | inl (rs, e) ↦ ground (arith, e, other, has_product-withdraw i ps rs e)
        | inr (b, e) ↦ cc (rw (other, e) at h)
      ]
    ]

    -- A withdrawal from a well-formed manifest leaves a well-formed manifest.
    pub withdraw_version-WellFormed :
        (ps qs : List ManifestProduct)
        → WellFormed ps
        → withdraw_version product_id version reason now ps ≡ ok qs
        → WellFormed qs
    unfolding withdraw_version
    withdraw_version-WellFormed [] qs w h = cc
    withdraw_version-WellFormed (p ∷ ps) qs w h = elim (Bool-cases (text_eq p.id product_id)) [
      | inl same ↦ elim (Result-cases (withdraw_in version reason now p.versions)) [
        | inl (vs, e) ↦
            subst WellFormed (ok-injective (rw (same, e) at h))
              (IsProduct-withdraw p vs w.0 e, w.1, w.2)
        | inr (b, e) ↦ cc (rw (same, e) at h)
      ]
      | inr other ↦ elim (Result-cases (withdraw_version product_id version reason now ps)) [
        | inl (rs, e) ↦ subst WellFormed (ok-injective (rw (other, e) at h)) (
          w.0,
          rw (has_product-withdraw p.id ps rs e) w.1,
          withdraw_version-WellFormed ps rs w.2 e,
        )
        | inr (b, e) ↦ cc (rw (other, e) at h)
      ]
    ]
