-- ===== src/Peer/Opening.antt =====
-- `Project::open` and `configuration_fingerprint` of peer_access.rs. The configuration file's format,
-- the working directory and the debug text of a canonical path are the record `ProjectFiles`.
use feather_mesh.Prelude.{
  ℕ, not, Option, none, some, List, [], ◌∷◌, ◌++◌, Text, codes, is_empty, length, ltb, Result, ok,
  ok_or, guard, ◌>>=◌, ◌>>◌, if◌then◌else◌,
}
use feather_mesh.Std.FilePath.{is_absolute, join}
use feather_mesh.Std.Utf8.{is_utf8}
use feather_mesh.Peer.Error.{IoKind, PeerResult, validation, toml_deserialize}
use feather_mesh.Peer.Types.{Project, ProjectConfig, PeerRouteConfig}
use feather_mesh.Peer.Env.{Fs, External, read_bounded}
use feather_mesh.Peer.Project.{validate_project_config}

pub record ProjectFiles : Type 0 where
  pub current_dir : Text
  pub decode_toml : List ℕ → Option ProjectConfig
  pub debug_text : Result IoKind Text → List ℕ

abbrev pub max_project_bytes : ℕ
max_project_bytes = 262144

unfoldable pub absolute_path : ProjectFiles → Text → Text
unfolding is_absolute join
absolute_path t path = if is_absolute path then path else join t.current_dir path

unfoldable pub config_path : Text → Text
unfolding join
config_path root = join root (codes ".feam/project.toml")

-- A configuration without owner teams has its namespace as the only one.
unfoldable pub default_owner_teams : ProjectConfig → ProjectConfig
default_owner_teams config =
    if is_empty config.owner_teams
    then record config { owner_teams = config.namespace ∷ [] }
    else config

unfoldable pub parse_config : ProjectFiles → List ℕ → PeerResult ProjectConfig
unfolding is_utf8 default_owner_teams
parse_config t bytes = do
  guard (is_utf8 bytes) (validation "project")
  config ← ok_or (t.decode_toml bytes) toml_deserialize
  guard (not (ltb 64 (length config.peers))) (validation "peers")
  ok (default_owner_teams config)

unfoldable pub open_project : ProjectFiles → Fs → Text → PeerResult Project
unfolding absolute_path config_path parse_config read_bounded validate_project_config
open_project t fs path = do
  let root = absolute_path t path
  bytes ← read_bounded fs (config_path root) max_project_bytes
  config ← parse_config t bytes
  validate_project_config config
  ok (record { root = root; config = config })

unfoldable pub peer_texts : ProjectFiles → Fs → Text → List PeerRouteConfig → List ℕ
unfolding join
peer_texts t fs root [] = []
peer_texts t fs root (peer ∷ peers) =
    t.debug_text (fs.canonicalize (join root peer.path)) ++ peer_texts t fs root peers

unfoldable pub serving_text : ProjectFiles → Fs → Text → Option Text → List ℕ
unfolding join
serving_text t fs root none = []
serving_text t fs root (some path) = t.debug_text (fs.canonicalize (join root path))

-- The hash is over the file's bytes and the resolved routes, one after the other.
unfoldable pub configuration_fingerprint : ProjectFiles → External → Fs → Project → PeerResult Text
unfolding config_path peer_texts serving_text read_bounded
configuration_fingerprint t x fs project = do
  bytes ← read_bounded fs (config_path project.root) max_project_bytes
  ok (
      x.sha256_hex (
        bytes
        ++ peer_texts t fs project.root project.config.peers
        ++ serving_text t fs project.root project.config.serving_dir))
