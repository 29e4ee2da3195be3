-- ===== src/Peer/Env.antt =====
-- What the peer service takes from outside: the file system, the libraries and the clock.
use feather_mesh.Prelude.{
  ℕ, ◌+◌, Bool, true, false, Option, none, some, List, Text, text_eq, length, Result, ok, err, ltb,
  ◌>>=◌, ◌>>◌, guard, take, not, if◌then◌else◌,
}
use feather_mesh.Peer.Error.{IoKind, PeerError, PeerResult, io, validation}
use feather_mesh.Peer.Types.{ServingManifest, PublishedVersion, TextMap}

pub record Metadata : Type 0 where
  pub is_file : Bool
  pub is_dir : Bool
  pub len : ℕ

-- The file system at one moment, as `std::fs` shows it.
pub record Fs : Type 0 where
  pub metadata : Text → Result IoKind Metadata
  pub canonicalize : Text → Result IoKind Text
  pub read : Text → Result IoKind (List ℕ)

-- The tags that the `tiff` crate reads from a file.
pub record TiffTags : Type 0 where
  pub width : ℕ
  pub height : ℕ
  pub color_type : Text
  pub geo_keys : Option (List ℕ)
  pub has_pixel_scale : Bool
  pub has_transformation : Bool
  pub nodata : Option Text

-- serde_json, sha2, chrono, parquet and tiff.
pub record External : Type 0 where
  pub decode_manifest : List ℕ → Option ServingManifest
  pub encode_manifest : ServingManifest → Option (List ℕ)
  pub encode_version : PublishedVersion → Option (List ℕ)
  pub encode_columns : TextMap → Option (List ℕ)
  pub sha256_hex : List ℕ → Text
  pub parse_rfc3339 : Text → Option ℕ
  pub decode_parquet : List ℕ → Option (TextMap × ℕ)
  pub decode_tiff : List ℕ → Option TiffTags

-- What the operating system answers in one mutation: whether the lock was refused, whether the
-- atomic write failed, and the time.
pub record Os : Type 0 where
  pub lock_error : Option PeerError
  pub write_error : Option IoKind
  pub now : Text

-- The conversion that `?` makes.
abbrev pub lift_io {ℓ} : {A : Type ℓ} → Result IoKind A → PeerResult A
lift_io (ok a) = ok a
lift_io (err k) = err (io k)

abbrev pub or_error {ℓ} : {A : Type ℓ} → Result IoKind A → PeerError → PeerResult A
or_error (ok a) e = ok a
or_error (err k) e = err e

-- `Path::exists` and `Path::is_dir`
unfoldable pub exists : Fs → Text → Bool
exists fs path = elim (fs.metadata path) [ ok m ↦ true | err k ↦ false ]

unfoldable pub is_dir : Fs → Text → Bool
is_dir fs path = elim (fs.metadata path) [ ok m ↦ m.is_dir | err k ↦ false ]

unfoldable pub read_bounded : Fs → Text → ℕ → PeerResult (List ℕ)
read_bounded fs path limit = do
  all_bytes ← lift_io (fs.read path)
  let bytes = take (limit + 1) all_bytes
  guard (not (ltb limit (length bytes))) (validation "input_size")
  ok bytes

-- The state after `write_atomic_text` renamed a complete file into place: readers of that path see
-- the new bytes, and nothing else changes.
unfoldable pub replace_file : Fs → Text → List ℕ → Fs
replace_file fs path bytes = record fs {
  metadata = λ p.
      if text_eq p path
      then ok (record { is_file = true; is_dir = false; len = length bytes })
      else fs.metadata p;
  read = λ p. if text_eq p path then ok bytes else fs.read p;
}

-- `write_atomic_text`: a failure, of the rename too, leaves the target as it was. A rename that reports an
-- error and yet took place is not modelled.
unfoldable pub write_atomic_text : Os → Fs → Text → List ℕ → Fs × PeerResult (Unit {0})
unfolding replace_file
write_atomic_text os fs path bytes = elim os.write_error [
  | none ↦ (replace_file fs path bytes, ok tt)
  | some k ↦ (fs, err (io k))
]
