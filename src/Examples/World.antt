-- ===== src/Examples/World.antt =====
-- A provider project in `/p` that serves `/p/s`, with one parquet file `d` of one column, and
-- libraries that know exactly this file and the manifest that its publication writes.
use mathlib.Core.Logic.{ite}
use feather_mesh.Prelude.{
  ℕ, ◌≡◌, ap, subst, sym, true, false, none, some, List, [], ◌∷◌, text_eq, codes, ok, err,
  if◌then◌else◌,
}
use native.Mathlib.Decide.{ℕ_discrete}
use feather_mesh.Peer.Error.{io_not_found}
use feather_mesh.Peer.Types.{
  Project, PublicationRequest, PublishedVersion, ServingManifest, table, parquet, active,
}
use feather_mesh.Peer.Env.{Fs, External, Os}
use feather_mesh.Peer.Manifest.{withdraw_record}
use feather_mesh.Peer.Manifest.Reading.{Codec}

unfoldable pub ServingManifest-discrete : Discrete ServingManifest
ServingManifest-discrete = hlevel ℕ_discrete

abbrev pub fs : Fs
fs = record {
  metadata = λ p.
      if text_eq p (codes "/p/s")
      then ok (record { is_file = false; is_dir = true; len = 0 })
      else if text_eq p (codes "/p/s/d")
      then ok (record { is_file = true; is_dir = false; len = 1 })
      else err io_not_found;
  canonicalize = λ p. ok p;
  read = λ p. if text_eq p (codes "/p/s/d") then ok (1 ∷ []) else err io_not_found;
}

abbrev pub project : Project
project = record {
  root = codes "/p";
  config = record {
    schema_version = 1;
    namespace = codes "lab";
    serving_dir = some (codes "s");
    owner_teams = codes "team" ∷ [];
    peers = [];
  };
}

abbrev pub request : PublicationRequest
request = record {
  schema_version = 1;
  namespace = codes "lab";
  product_id = codes "obs";
  name = codes "n";
  version = codes "v1";
  data_kind = table;
  data_format = parquet;
  description = codes "d";
  intended_use = codes "u";
  limitations = codes "l";
  owner_team = codes "team";
  producer = codes "p";
  contact = codes "c";
  usage_policy = codes "o";
  classification = codes "i";
  quality = codes "q";
  assets =
      record {
        id = codes "a";
        path = codes "d";
        role = codes "r";
        media_type = codes "m";
        digest_opt_out = false;
      }
      ∷ [];
  lineage = [];
  table_profile = some (record {
    column_meanings = (codes "k", codes "x") ∷ [];
    column_units = (codes "k", codes "y") ∷ [];
    partition_columns = [];
  });
  raster_profile = none;
}

abbrev pub os : Os
os = record { lock_error = none; write_error = none; now = codes "t" }

abbrev pub candidate : PublishedVersion
candidate = record {
  product_id = codes "obs";
  name = codes "n";
  version = codes "v1";
  lifecycle = active;
  withdrawal_reason = none;
  data_kind = table;
  data_format = parquet;
  description = codes "d";
  intended_use = codes "u";
  limitations = codes "l";
  owner_team = codes "team";
  producer = codes "p";
  contact = codes "c";
  usage_policy = codes "o";
  classification = codes "i";
  quality = codes "q";
  assets =
      record {
        id = codes "a";
        path = codes "d";
        role = codes "r";
        media_type = codes "m";
        size = 1;
        sha256 = some (1 ∷ []);
      }
      ∷ [];
  lineage = [];
  table_descriptor = some (record {
    columns = (codes "k", codes "int") ∷ [];
    schema_fingerprint = [];
    row_count = 3;
    partition_columns = [];
    column_meanings = (codes "k", codes "x") ∷ [];
    column_units = (codes "k", codes "y") ∷ [];
  });
  raster_descriptor = none;
  published_at = codes "t";
  withdrawn_at = none;
}

abbrev pub manifest : ServingManifest
manifest = record {
  schema_version = 1;
  namespace = codes "lab";
  revision = 1;
  updated_at = codes "t";
  products = record { id = codes "obs"; name = codes "n"; versions = candidate ∷ [] } ∷ [];
}

-- The manifest after the withdrawal of the version.
abbrev pub withdrawn_manifest : ServingManifest
withdrawn_manifest = record manifest {
  revision = 2;
  products =
      record {
        id = codes "obs";
        name = codes "n";
        versions = withdraw_record (codes "bad") (codes "t") candidate ∷ [];
      }
      ∷ [];
}

abbrev pub libraries : External
libraries = record {
  decode_manifest = λ b.
      if text_eq b (7 ∷ [])
      then some manifest
      else if text_eq b (8 ∷ [])
      then some withdrawn_manifest
      else none;
  encode_manifest = λ m.
      ite (ServingManifest-discrete m manifest) (some (7 ∷ []))
        (ite (ServingManifest-discrete m withdrawn_manifest) (some (8 ∷ [])) none);
  encode_version = λ v. some [];
  encode_columns = λ c. some [];
  sha256_hex = λ b. b;
  parse_rfc3339 = λ t. none;
  decode_parquet = λ b. some ((codes "k", codes "int") ∷ [], 3);
  decode_tiff = λ b. none;
}

codec_at :
    (m : ServingManifest) (bytes : List ℕ) (d : Dec (m ≡ manifest))
    (d' : Dec (m ≡ withdrawn_manifest))
    → ite d (some (7 ∷ [])) (ite d' (some (8 ∷ [])) none) ≡ some bytes
    → libraries.decode_manifest bytes ≡ some m
unfolding text_eq
codec_at m bytes (yes e) d' h =
    let same : 7 ∷ [] ≡ bytes = cc in
    subst (λ b. libraries.decode_manifest b ≡ some m) same (ap some (sym e))
codec_at m bytes (no n) (yes e) h =
    let same : 8 ∷ [] ≡ bytes = cc in
    subst (λ b. libraries.decode_manifest b ≡ some m) same (ap some (sym e))
codec_at m bytes (no n) (no k) h = cc

pub libraries-Codec : Codec libraries
libraries-Codec m bytes h =
    codec_at m bytes (ServingManifest-discrete m manifest)
      (ServingManifest-discrete m withdrawn_manifest) h
