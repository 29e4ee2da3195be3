-- ===== src/Peer/Manifest/WellFormed.antt =====
-- Well-formed product lists: no two products share an id, no two versions of a product a label, and a
-- version carries the id of its product.
use feather_mesh.Prelude.{
  ◌≡◌, refl, Bool, false, ◌||◌, List, [], ◌∷◌, ◌++◌, arith, Text, text_eq, text_eq_iff, any, All,
  All-append, ok, Bool-cases, Result-cases, inl, inr, subst, ok-injective,
}
use feather_mesh.Peer.Types.{PublishedVersion, ManifestProduct}
use feather_mesh.Peer.Manifest.{add_version}

abbrev pub has_version : Text → List PublishedVersion → Bool
has_version v rs = any (λ r. text_eq r.version v) rs

abbrev pub has_product : Text → List ManifestProduct → Bool
has_product i ps = any (λ p. text_eq p.id i) ps

abbrev pub VersionsDistinct : List PublishedVersion → Type 0
VersionsDistinct [] = Unit
VersionsDistinct (r ∷ rs) = (has_version r.version rs ≡ false) × VersionsDistinct rs

pub record IsProduct (p : ManifestProduct) : Type 0 where
  pub distinct : VersionsDistinct p.versions
  pub owned : All (λ r. r.product_id ≡ p.id) p.versions

abbrev pub WellFormed : List ManifestProduct → Type 0
WellFormed [] = Unit
WellFormed (p ∷ ps) = IsProduct p × (has_product p.id ps ≡ false) × WellFormed ps

has_version-append :
    (v : Text) (c : PublishedVersion) (rs : List PublishedVersion)
    → has_version v (rs ++ c ∷ []) ≡ (has_version v rs || text_eq c.version v)
has_version-append v c [] = ground arith
has_version-append v c (r ∷ rs) = ground (arith, has_version-append v c rs)

VersionsDistinct-append :
    (c : PublishedVersion) (rs : List PublishedVersion)
    → VersionsDistinct rs
    → has_version c.version rs ≡ false
    → VersionsDistinct (rs ++ c ∷ [])
VersionsDistinct-append c [] d h = (refl, tt)
VersionsDistinct-append c (r ∷ rs) d h = ground (
  arith,
  has_version-append r.version c rs,
  VersionsDistinct-append c rs,
  text_eq_iff c.version r.version,
  text_eq_iff r.version c.version,
)

-- An edit keeps the ids of the products, and may add one id at the end.
has_product-add :
    (c : PublishedVersion) (i : Text) (ps qs : List ManifestProduct)
    → add_version c ps ≡ ok qs
    → text_eq c.product_id i ≡ false
    → has_product i ps ≡ false
    → has_product i qs ≡ false
unfolding add_version
has_product-add c i [] qs h other absent = ground arith
has_product-add c i (p ∷ ps) qs h other absent = elim (Result-cases (add_version c ps)) [
  | inl (rs, e) ↦ ground (arith, e, has_product-add c i ps rs e)
  | inr (b, e) ↦ ground (arith, e)
]

IsProduct-append :
    (c : PublishedVersion) (p : ManifestProduct)
    → IsProduct p
    → c.product_id ≡ p.id
    → has_version c.version p.versions ≡ false
    → IsProduct (record p { versions = p.versions ++ c ∷ [] })
IsProduct-append c p w e h = record {
  distinct = VersionsDistinct-append c p.versions w.distinct h;
  owned = All-append (λ r. r.product_id ≡ p.id) p.versions (c ∷ []) w.owned (e, tt);
}

-- Adding a version to a well-formed manifest makes a well-formed manifest.
pub add_version-WellFormed :
    (c : PublishedVersion) (ps qs : List ManifestProduct)
    → WellFormed ps
    → add_version c ps ≡ ok qs
    → WellFormed qs
unfolding add_version
add_version-WellFormed c [] qs w h =
    subst WellFormed (ok-injective h)
      (record { distinct = (refl, tt); owned = (refl, tt) }, refl, tt)
add_version-WellFormed c (p ∷ ps) qs w h = elim (Bool-cases (text_eq p.id c.product_id)) [
  | inl same ↦ elim (Bool-cases (has_version c.version p.versions)) [
    | inl old ↦ cc (rw (same, old) at h)
    | inr new ↦
        subst WellFormed (ok-injective (rw (same, new) at h))
          (IsProduct-append c p w.0 (ground (arith, text_eq_iff p.id c.product_id)) new, w.1, w.2)
  ]
  | inr other ↦ elim (Result-cases (add_version c ps)) [
    | inl (rs, e) ↦ subst WellFormed (ok-injective (rw (other, e) at h)) (
      w.0,
      has_product-add c p.id ps rs e
          (ground (arith, text_eq_iff p.id c.product_id, text_eq_iff c.product_id p.id)) w.1,
      add_version-WellFormed c ps rs w.2 e,
    )
    | inr (b, e) ↦ cc (rw (other, e) at h)
  ]
]
