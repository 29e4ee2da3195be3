-- ===== src/Examples/Catalogs.antt =====
-- A catalog of one product with two versions, read in pages of one entry.
use feather_mesh.Prelude.{
  All, starts_with, ◌≡◌, refl, none, some, [], ◌∷◌, text_eq, codes, ok, if◌then◌else◌, Text, Option,
  ◌++◌, length, suc, arith,
}
use feather_mesh.Peer.Types.{ManifestProduct, ServingManifest}
use feather_mesh.Peer.Env.{Fs, External}
use feather_mesh.Peer.Project.{route_for_namespace}
use feather_mesh.Peer.Opening.{configuration_fingerprint}
use feather_mesh.Peer.Listing.{
  Listing, covered, listed_namespaces, peer_namespaces, add_coverage, add_manifest, add_bytes,
  exceeds, list_route, list_namespaces, list_registered_with_coverage,
}
use feather_mesh.Std.Str.{lowercase, contains_text}
use feather_mesh.Peer.Token.{reference}
use feather_mesh.Catalog.{
  CatalogQuery, CatalogCursor, CatalogCodec, all_matches, product_matches, is_match, is_active,
  matches_query, lowered, same_kind, same_format, searched_text,
}
use feather_mesh.Catalog.Query.{query_fingerprint, cursor_after}
use feather_mesh.Catalog.Order.{AreDistinct, same_key}
use feather_mesh.Catalog.Cursors.{IsReadBack}
use feather_mesh.Catalog.Walk.{IsWhole, follow, query_page, query_catalog-follow}
use feather_mesh.Examples.World.{project, candidate, libraries}
use feather_mesh.Examples.Reviews.{configured, project_files}
use feather_mesh.Examples.Publishing.{publishing}

abbrev product : ManifestProduct
product = record {
  id = codes "obs";
  name = codes "n";
  versions = record candidate { version = codes "v2" } ∷ candidate ∷ [];
}

abbrev manifest : ServingManifest
manifest = record {
  schema_version = 1;
  namespace = codes "lab";
  revision = 2;
  updated_at = codes "t";
  products = product ∷ [];
}

abbrev catalog_fs : Fs
catalog_fs = record configured {
  read = λ p. if text_eq p (codes "/p/s/manifest.json") then ok (8 ∷ []) else configured.read p;
}

abbrev catalog_libraries : External
catalog_libraries = record libraries { decode_manifest = λ b. some manifest }

-- The cursors of the two entries.
abbrev after_version : Text → CatalogCursor
after_version v = record {
  snapshot_fingerprint = [];
  after_reference = codes "product://lab/obs";
  after_version = v;
}

abbrev codec : CatalogCodec
codec = record {
  utf8 = λ s. s;
  message = λ cause. codes "unavailable";
  query_bytes = λ coverage configuration root query. some [];
  encode_json = λ c. if text_eq c.after_version (codes "v1") then 1 ∷ [] else 2 ∷ [];
  decode_json = λ b. some (after_version (if text_eq b (1 ∷ []) then codes "v1" else codes "v2"));
}

abbrev query : CatalogQuery
query = record {
  text = some (codes "Lab");
  namespace = none;
  data_kind = none;
  data_format = none;
  quality = none;
  owner_team = none;
  classification = none;
  limit = 1;
  cursor = none;
}

abbrev listing : Listing
listing = record {
  input_bytes = 1;
  entries = (codes "lab", product, 2) ∷ [];
  coverage = covered (codes "lab") (codes "t") 2 ∷ [];
}

catalog_listed :
    list_registered_with_coverage catalog_libraries catalog_fs project (codes "t") ≡ ok listing
unfolding publishing peer_namespaces listed_namespaces add_coverage add_manifest add_bytes exceeds
    list_route list_namespaces list_registered_with_coverage route_for_namespace
catalog_listed = refl

no_fingerprint :
    query_fingerprint project_files catalog_libraries codec catalog_fs project listing.coverage
      query
    ≡ ok []
unfolding query_fingerprint configuration_fingerprint text_eq
no_fingerprint = refl

distinct_matches : AreDistinct (all_matches query listing.entries)
unfolding all_matches product_matches is_match is_active matches_query lowered lowercase
    contains_text text_eq same_kind same_format searched_text reference starts_with same_key
distinct_matches = ((refl, tt), (tt, tt))

IsReadBack-all_matches :
    All (λ e. IsReadBack codec (cursor_after [] e)) (all_matches query listing.entries)
unfolding all_matches product_matches is_match is_active matches_query lowered lowercase
    contains_text text_eq same_kind same_format searched_text reference starts_with
IsReadBack-all_matches = (
  record { decoded = refl; bytes = (omega arith, tt); short = omega arith },
  (record { decoded = refl; bytes = (omega arith, tt); short = omega arith }, tt),
)

-- Each page at another time.
abbrev times : Option Text → Text
times none = codes "t"
times (some cursor) = codes "t" ++ cursor

query_catalog-follow_example : IsWhole query listing (
    follow
      (suc (length (all_matches query listing.entries)))
      (query_page project_files catalog_libraries codec catalog_fs project times query)
      none)
query_catalog-follow_example =
    query_catalog-follow project_files catalog_libraries codec catalog_fs project times query
      listing [] (omega arith) (omega arith) catalog_listed no_fingerprint distinct_matches
      IsReadBack-all_matches
