-- ===== src/Peer/Types.antt =====
-- The data of peer_access.rs. Text is a list of code points, a path is its text, a `BTreeMap` is the
-- list of its entries in key order, an `f64` is its IEEE 754 bit pattern, an `i64` its two's
-- complement bit pattern. How serde reads and writes these types is not modelled here.
use feather_mesh.Prelude.{ℕ, Bool, Option, List, Text}

pub data DataKind : Type 0 where
  table raster : DataKind

pub data DataFormat : Type 0 where
  parquet geotiff : DataFormat

pub data Lifecycle : Type 0 where
  active withdrawn : Lifecycle

pub record PeerRouteConfig : Type 0 where
  pub alias : Text
  pub namespace : Text
  pub path : Text

pub record ProjectConfig : Type 0 where
  pub schema_version : ℕ
  pub namespace : Text
  pub serving_dir : Option Text
  pub owner_teams : List Text
  pub peers : List PeerRouteConfig

pub record Project : Type 0 where
  pub root : Text
  pub config : ProjectConfig

pub record Route : Type 0 where
  pub displayed_root : Text
  pub canonical_root : Text
  pub namespace : Text

pub record LineageReference : Type 0 where
  pub product : Text
  pub version : Option Text

pub record DeclaredAsset : Type 0 where
  pub id : Text
  pub path : Text
  pub role : Text
  pub media_type : Text
  pub digest_opt_out : Bool

abbrev pub TextMap : Type 0
TextMap = List (Text × Text)

pub record TablePublication : Type 0 where
  pub column_meanings : TextMap
  pub column_units : TextMap
  pub partition_columns : List Text

-- [west, south, east, north]
abbrev pub BoundingBox : Type 0
BoundingBox = ℕ × ℕ × ℕ × ℕ

pub record RasterPublication : Type 0 where
  pub datetime : Option Text
  pub start_datetime : Option Text
  pub end_datetime : Option Text
  pub bbox : BoundingBox
  pub semantics : TextMap

pub record PublicationRequest : Type 0 where
  pub schema_version : ℕ
  pub namespace : Text
  pub product_id : Text
  pub name : Text
  pub version : Text
  pub data_kind : DataKind
  pub data_format : DataFormat
  pub description : Text
  pub intended_use : Text
  pub limitations : Text
  pub owner_team : Text
  pub producer : Text
  pub contact : Text
  pub usage_policy : Text
  pub classification : Text
  pub quality : Text
  pub assets : List DeclaredAsset
  pub lineage : List LineageReference
  pub table_profile : Option TablePublication
  pub raster_profile : Option RasterPublication

pub record AssetRecord : Type 0 where
  pub id : Text
  pub path : Text
  pub role : Text
  pub media_type : Text
  pub size : ℕ
  pub sha256 : Option Text

pub record TableDescriptor : Type 0 where
  pub columns : TextMap
  pub schema_fingerprint : Text
  pub row_count : ℕ
  pub partition_columns : List Text
  pub column_meanings : TextMap
  pub column_units : TextMap

pub record RasterDescriptor : Type 0 where
  pub width : ℕ
  pub height : ℕ
  pub color_type : Text
  pub geo_key_directory : List ℕ
  pub crs : Option Text
  pub nodata : Option Text
  pub datetime : Option Text
  pub start_datetime : Option Text
  pub end_datetime : Option Text
  pub bbox : BoundingBox
  pub semantics : TextMap

pub record PublishedVersion : Type 0 where
  pub product_id : Text
  pub name : Text
  pub version : Text
  pub lifecycle : Lifecycle
  pub withdrawal_reason : Option Text
  pub data_kind : DataKind
  pub data_format : DataFormat
  pub description : Text
  pub intended_use : Text
  pub limitations : Text
  pub owner_team : Text
  pub producer : Text
  pub contact : Text
  pub usage_policy : Text
  pub classification : Text
  pub quality : Text
  pub assets : List AssetRecord
  pub lineage : List LineageReference
  pub table_descriptor : Option TableDescriptor
  pub raster_descriptor : Option RasterDescriptor
  pub published_at : Text
  pub withdrawn_at : Option Text

pub record ManifestProduct : Type 0 where
  pub id : Text
  pub name : Text
  pub versions : List PublishedVersion

pub record ServingManifest : Type 0 where
  pub schema_version : ℕ
  pub namespace : Text
  pub revision : ℕ
  pub updated_at : Text
  pub products : List ManifestProduct

pub data PublicationStatus : Type 0 where
  status_published status_withdrawn : PublicationStatus

-- `protocol` is the constant PEER_PROTOCOL_VERSION.
pub record PublicationResponse : Type 0 where
  pub reference : Text
  pub version : Text
  pub manifest_revision : ℕ
  pub status : PublicationStatus
