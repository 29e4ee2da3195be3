-- ===== src/Examples/Editing.antt =====
-- Edits of a manifest's products at concrete inputs.
use feather_mesh.Prelude.{
  ◌↔◌, ◌≡◌, refl, ◌&&◌, none, List, [], ◌∷◌, text_eq, codes, ok, if◌then◌else◌,
}
use mathlib.Core.Option
use feather_mesh.Peer.Types.{PublishedVersion, ManifestProduct}
use feather_mesh.Peer.Manifest.{
  find_record, add_version, withdraw_version, withdraw_in, withdraw_record, set_versions,
  is_withdrawn,
}
use feather_mesh.Peer.Manifest.Edits.{
  looked_up, find_record-add, add_version_iff, find_record-withdraw, WithdrawOutcome,
  withdraw_version-outcome,
}
use feather_mesh.Peer.Manifest.WellFormed.{WellFormed, add_version-WellFormed}
use feather_mesh.Peer.Manifest.Withdrawn.{withdraw_version-WellFormed}
use feather_mesh.Examples.World.{candidate}

-- The second version of the product, and the products before and after it.
abbrev second : PublishedVersion
second = record candidate { version = codes "v2" }

abbrev before : List ManifestProduct
before = record { id = codes "obs"; name = codes "n"; versions = candidate ∷ [] } ∷ []

abbrev after : List ManifestProduct
after = record { id = codes "obs"; name = codes "n"; versions = candidate ∷ second ∷ [] } ∷ []

abbrev gone : List ManifestProduct
gone =
    record {
      id = codes "obs";
      name = codes "n";
      versions = withdraw_record (codes "bad") (codes "t2") candidate ∷ [];
    }
    ∷ []

added : add_version second before ≡ ok after
unfolding add_version text_eq
added = refl

withdrew : withdraw_version (codes "obs") (codes "v1") (codes "bad") (codes "t2") before ≡ ok gone
unfolding withdraw_version withdraw_in set_versions is_withdrawn text_eq
withdrew = refl

before-WellFormed : WellFormed before
before-WellFormed = (record { distinct = (refl, tt); owned = (refl, tt) }, refl, tt)

find_record-add_example :
    find_record (codes "obs") (codes "v1") after
    ≡ looked_up second (codes "obs") (codes "v1") before
find_record-add_example = find_record-add second (codes "obs") (codes "v1") before after added

add_version_iff_example :
    ((qs : List ManifestProduct) × (add_version second before ≡ ok qs))
    ↔ (find_record (codes "obs") (codes "v2") before ≡ none)
add_version_iff_example = add_version_iff second before

add_version-WellFormed_example : WellFormed after
add_version-WellFormed_example = add_version-WellFormed second before after before-WellFormed added

find_record-withdraw_example : find_record (codes "obs") (codes "v1") gone ≡ (
    if text_eq (codes "obs") (codes "obs") && text_eq (codes "v1") (codes "v1")
    then Option.map
        (withdraw_record (codes "bad") (codes "t2"))
        (find_record (codes "obs") (codes "v1") before)
    else find_record (codes "obs") (codes "v1") before)
find_record-withdraw_example =
    find_record-withdraw (codes "obs") (codes "v1") (codes "bad") (codes "t2") (codes "obs")
      (codes "v1") before gone withdrew

withdraw_version-outcome_example :
    WithdrawOutcome
      (find_record (codes "obs") (codes "v1") before)
      (withdraw_version (codes "obs") (codes "v1") (codes "bad") (codes "t2") before)
withdraw_version-outcome_example =
    withdraw_version-outcome (codes "obs") (codes "v1") (codes "bad") (codes "t2") before

withdraw_version-WellFormed_example : WellFormed gone
withdraw_version-WellFormed_example =
    withdraw_version-WellFormed (codes "v1") (codes "bad") (codes "t2") (codes "obs") before gone
      before-WellFormed withdrew
