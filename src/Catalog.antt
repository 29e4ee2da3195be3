-- ===== src/Catalog.antt =====
-- catalog_service.rs: its data, which versions a query matches, and the order of the matches. serde_json
-- the UTF-8 bytes of a text and the message of a failed namespace are the record `CatalogCodec`.
pub mod Query
pub mod Groups
pub mod Cursors
pub mod Order
pub mod Times
pub mod Walk
use feather_mesh.Prelude.{
  ℕ, zero, suc, ◌%◌, ◌==◌, Bool, true, false, ◌&&◌, ◌||◌, not, Option, none, some, List, [], ◌∷◌,
  ◌++◌, map, String, Text, codes, text_eq, text_less, is_empty, all, filter, take, length, leb, ltb,
  Result, ok, err, ok_or, guard, ◌>>=◌, ◌>>◌, if◌then◌else◌,
}
use feather_mesh.Std.Str.{lowercase, contains_text, strip_prefix}
use feather_mesh.Std.Hex.{from_hex, lower_digit}
use feather_mesh.Agent.Json.{byte_length}
use feather_mesh.Peer.Error.{PeerError, PeerResult, validation, conflict, json}
use feather_mesh.Peer.Token.{reference}
use feather_mesh.Peer.Types.{
  Project, DataKind, table, raster, DataFormat, parquet, geotiff, active, withdrawn, Lifecycle,
  PublishedVersion, ManifestProduct,
}
use feather_mesh.Peer.Env.{Fs, External}
use feather_mesh.Peer.Opening.{ProjectFiles, configuration_fingerprint}
use feather_mesh.Peer.Listing.{
  Unavailable, PeerCoverage, Entry, Listing, list_registered_with_coverage,
}
use feather_mesh.Stac.Http.{hex_encode}

pub record CatalogQuery : Type 0 where
  pub text : Option Text
  pub namespace : Option Text
  pub data_kind : Option DataKind
  pub data_format : Option DataFormat
  pub quality : Option Text
  pub owner_team : Option Text
  pub classification : Option Text
  pub limit : ℕ
  pub cursor : Option Text

pub record CatalogEntry : Type 0 where
  pub reference : Text
  pub version : Text
  pub name : Text
  pub manifest_revision : ℕ
  pub data_kind : DataKind
  pub data_format : DataFormat
  pub description : Text
  pub limitations : Text
  pub owner_team : Text
  pub quality : Text

-- `protocol` is the constant CATALOG_PROTOCOL_VERSION.
pub record CatalogPage : Type 0 where
  pub entries : List CatalogEntry
  pub coverage : List PeerCoverage
  pub snapshot_fingerprint : Text
  pub next_cursor : Option Text
  pub result_limit : ℕ
  pub truncated : Bool

pub record CatalogCursor : Type 0 where
  pub snapshot_fingerprint : Text
  pub after_reference : Text
  pub after_version : Text

pub record CatalogCodec : Type 0 where
  pub utf8 : Text → List ℕ
  pub message : Unavailable → Text
  pub query_bytes : Text → Text → Text → CatalogQuery → Option (List ℕ)
  pub encode_json : CatalogCursor → List ℕ
  pub decode_json : List ℕ → Option CatalogCursor

abbrev pub max_catalog_page_size : ℕ
max_catalog_page_size = 100

unfoldable pub same_kind : DataKind → DataKind → Bool
same_kind table table = true
same_kind raster raster = true
same_kind _ _ = false

unfoldable pub same_format : DataFormat → DataFormat → Bool
same_format parquet parquet = true
same_format geotiff geotiff = true
same_format _ _ = false

-- A filter that is not given, or that the value meets.
abbrev pub meets : {A : Type 0} → (A → A → Bool) → Option A → A → Bool
meets same none a = true
meets same (some b) a = same b a

abbrev pub spaced : Text → Text → Text
spaced s t = s ++ b' ' ∷ t

unfoldable pub searched_text : Text → Text → Text → PublishedVersion → Text
searched_text ns product_id name v =
    spaced ns
      (spaced product_id (spaced name (spaced v.version (spaced v.description v.owner_team))))

abbrev pub has_needle : Text → Option Text → Bool
has_needle text none = true
has_needle text (some needle) = contains_text needle (lowercase text)

unfoldable pub matches_query :
    Text → Text → Text → PublishedVersion → CatalogQuery → Option Text → Bool
unfolding text_eq same_kind same_format searched_text contains_text lowercase
matches_query ns product_id name v query needle =
    meets text_eq query.namespace ns
    && meets same_kind query.data_kind v.data_kind
    && meets same_format query.data_format v.data_format
    && meets text_eq query.quality v.quality
    && meets text_eq query.owner_team v.owner_team
    && meets text_eq query.classification v.classification
    && has_needle (searched_text ns product_id name v) needle

unfoldable pub is_active : PublishedVersion → Bool
is_active v = elim v.lifecycle [ active ↦ true | withdrawn ↦ false ]

unfoldable pub lowered : Option Text → Option Text
unfolding lowercase
lowered none = none
lowered (some s) = some (lowercase s)

unfoldable pub is_match : CatalogQuery → Entry → PublishedVersion → Bool
unfolding is_active matches_query lowered
is_match query (ns, product, revision) v =
    is_active v && matches_query ns product.id product.name v query (lowered query.text)

abbrev pub catalog_entry : Entry → PublishedVersion → CatalogEntry
catalog_entry (ns, product, revision) v = record {
  reference = reference ns product.id;
  version = v.version;
  name = product.name;
  manifest_revision = revision;
  data_kind = v.data_kind;
  data_format = v.data_format;
  description = v.description;
  limitations = v.limitations;
  owner_team = v.owner_team;
  quality = v.quality;
}

unfoldable pub product_matches : CatalogQuery → Entry → List PublishedVersion → List CatalogEntry
unfolding is_match reference
product_matches query e [] = []
product_matches query e (v ∷ vs) =
    let others = product_matches query e vs in
    if is_match query e v then catalog_entry e v ∷ others else others

unfoldable pub all_matches : CatalogQuery → List Entry → List CatalogEntry
unfolding product_matches
all_matches query [] = []
all_matches query (e ∷ es) = product_matches query e (e.1).versions ++ all_matches query es

-- `Ord` of pairs and triples of texts.
unfoldable pub key_less : Text × Text → Text × Text → Bool
unfolding text_less text_eq
key_less a b = text_less a.0 b.0 || text_eq a.0 b.0 && text_less a.1 b.1

unfoldable pub entry_less : CatalogEntry → CatalogEntry → Bool
unfolding key_less
entry_less a b =
    key_less (a.reference, a.version) (b.reference, b.version)
    || text_eq a.reference b.reference && text_eq a.version b.version && text_less a.name b.name

-- `sort_by`, which is stable.
unfoldable pub insert_entry : CatalogEntry → List CatalogEntry → List CatalogEntry
unfolding entry_less
insert_entry e [] = e ∷ []
insert_entry e (x ∷ xs) =
    let rest = insert_entry e xs in if entry_less x e then x ∷ rest else e ∷ x ∷ xs

unfoldable pub sort_entries : List CatalogEntry → List CatalogEntry
unfolding insert_entry
sort_entries [] = []
sort_entries (e ∷ es) = insert_entry e (sort_entries es)
