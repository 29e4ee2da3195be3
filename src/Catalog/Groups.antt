-- ===== src/Catalog/Groups.antt =====
-- `query_products` and `catalog_teams` of catalog_service.rs.
use feather_mesh.Prelude.{
  ℕ, List, [], ◌∷◌, ◌++◌, Text, text_eq, text_less, is_empty, filter, ok, ◌>>=◌, if◌then◌else◌,
}
use feather_mesh.Peer.Error.{PeerResult}
use feather_mesh.Peer.Token.{reference}
use feather_mesh.Peer.Types.{Project, PublishedVersion}
use feather_mesh.Peer.Env.{Fs, External}
use feather_mesh.Peer.Listing.{Entry, list_registered_with_coverage}
use feather_mesh.Catalog.{CatalogQuery, is_match, is_active}

-- A row of the command line: the JSON's fields.
pub record ProductRow : Type 0 where
  pub reference : Text
  pub name : Text
  pub versions : List Text
  pub manifest_revision : ℕ

abbrev pub version_labels : List PublishedVersion → List Text
version_labels [] = []
version_labels (v ∷ vs) = v.version ∷ version_labels vs

unfoldable pub product_row : CatalogQuery → Entry → List ProductRow
unfolding is_match reference
product_row query (ns, product, revision) =
    let labels =
      version_labels (filter (is_match query (ns, product, revision)) product.versions) in
    if is_empty labels
    then []
    else record {
      reference = reference ns product.id;
      name = product.name;
      versions = labels;
      manifest_revision = revision;
    }
      ∷ []

unfoldable pub product_rows : CatalogQuery → List Entry → List ProductRow
unfolding product_row
product_rows query [] = []
product_rows query (e ∷ es) = product_row query e ++ product_rows query es

-- `sort_by_key`, which is stable.
unfoldable pub insert_product : ProductRow → List ProductRow → List ProductRow
unfolding text_less
insert_product r [] = r ∷ []
insert_product r (x ∷ xs) =
    let rest = insert_product r xs in
    if text_less x.reference r.reference then x ∷ rest else r ∷ x ∷ xs

unfoldable pub sort_products : List ProductRow → List ProductRow
unfolding insert_product
sort_products [] = []
sort_products (r ∷ rs) = insert_product r (sort_products rs)

unfoldable pub query_products :
    External → Fs → Project → Text → CatalogQuery → PeerResult (List ProductRow)
unfolding list_registered_with_coverage sort_products product_rows
query_products x fs project now query = do
  listing ← list_registered_with_coverage x fs project now
  ok (sort_products (product_rows query listing.entries))

-- `BTreeSet::insert`: in order, each text once.
unfoldable pub insert_text : Text → List Text → List Text
unfolding text_less text_eq
insert_text t [] = t ∷ []
insert_text t (s ∷ ss) =
    let rest = insert_text t ss in
    if text_eq s t then s ∷ ss else if text_less s t then s ∷ rest else t ∷ s ∷ ss

abbrev pub version_teams : List PublishedVersion → List Text
version_teams [] = []
version_teams (v ∷ vs) = v.owner_team ∷ version_teams vs

abbrev pub active_teams : List Entry → List Text
active_teams [] = []
active_teams ((ns, product, revision) ∷ es) =
    version_teams (filter is_active product.versions) ++ active_teams es

unfoldable pub text_set : List Text → List Text
unfolding insert_text
text_set [] = []
text_set (t ∷ ts) = insert_text t (text_set ts)

unfoldable pub catalog_teams : External → Fs → Project → Text → PeerResult (List Text)
unfolding list_registered_with_coverage text_set is_active
catalog_teams x fs project now = do
  listing ← list_registered_with_coverage x fs project now
  ok (text_set (active_teams listing.entries))
