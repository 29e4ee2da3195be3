-- ===== src/Peer/Error.antt =====
-- `PeerError` of peer_access.rs. The messages are not modelled; `validation` keeps its field, and
-- `io` the kind of the operating system's error.
use feather_mesh.Prelude.{ℕ, String, Result}

pub data IoKind : Type 0 where
  io_not_found io_already_exists io_permission_denied io_other : IoKind

pub data PeerError : Type 0 where
  validation : String → PeerError
  not_found dataset_not_registered peer_unavailable withdrawn policy conflict integrity : PeerError
  lock_timeout unsupported_format : PeerError
  io : IoKind → PeerError
  json toml_deserialize toml_serialize parquet geo_tiff : PeerError

abbrev pub PeerResult {ℓ} : Type ℓ → Type ℓ
PeerResult A = Result PeerError A

unfoldable pub kind : PeerError → String
kind (validation f) = "bad_metadata"
kind not_found = "not_found"
kind dataset_not_registered = "dataset_not_registered"
kind peer_unavailable = "peer_unavailable"
kind withdrawn = "withdrawn_version"
kind policy = "policy_failure"
kind conflict = "publication_conflict"
kind integrity = "integrity_failed"
kind lock_timeout = "lock_timeout"
kind unsupported_format = "unsupported_format"
kind (io k) = "filesystem_error"
kind json = "malformed_manifest"
kind toml_deserialize = "project_config_error"
kind toml_serialize = "project_config_error"
kind parquet = "unsupported_format"
kind geo_tiff = "unsupported_format"

unfoldable pub exit_code : PeerError → ℕ
exit_code (validation f) = 3
exit_code unsupported_format = 3
exit_code parquet = 3
exit_code geo_tiff = 3
exit_code not_found = 4
exit_code dataset_not_registered = 4
exit_code peer_unavailable = 5
exit_code withdrawn = 5
exit_code policy = 5
exit_code integrity = 5
exit_code conflict = 1
exit_code lock_timeout = 1
exit_code (io k) = 1
exit_code json = 1
exit_code toml_deserialize = 1
exit_code toml_serialize = 1
