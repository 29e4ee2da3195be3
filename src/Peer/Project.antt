-- ===== src/Peer/Project.antt =====
-- `Project::serving_root` and `route_for_namespace`, `validate_project_config`, `checked_asset_path`.
pub mod AssetPath
pub mod Peers
use feather_mesh.Prelude.{
  ℕ, Bool, true, false, not, ◌==◌, Option, none, some, List, [], ◌∷◌, Text, text_eq, find, contains,
  is_empty, Result, ok, err, ◌>>=◌, ◌>>◌, guard, ok_or, for_each, if◌then◌else◌,
}
use feather_mesh.Std.FilePath.{is_absolute, join, path_starts_with}
use feather_mesh.Peer.Error.{PeerError, PeerResult, validation, policy, peer_unavailable}
use feather_mesh.Peer.Token.{non_blank, validate_namespace, validate_relative_path}
use feather_mesh.Peer.Types.{Project, ProjectConfig, PeerRouteConfig, Route}
use feather_mesh.Peer.Env.{Fs, Metadata, lift_io, or_error, is_dir}

abbrev pub namespace : Project → Text
namespace project = project.config.namespace

unfoldable pub serving_root : Fs → Project → PeerResult Text
serving_root fs project = do
  path ← ok_or project.config.serving_dir policy
  let root = join project.root path
  guard (is_dir fs root) peer_unavailable
  lift_io (fs.canonicalize root)

unfoldable pub local_route : Fs → Project → Text → PeerResult Route
local_route fs project ns = do
  root ← serving_root fs project
  ok (record { displayed_root = root; canonical_root = root; namespace = ns })

unfoldable pub peer_route : Fs → Project → Text → PeerResult Route
peer_route fs project ns = do
  peer ← ok_or (find (λ p. text_eq p.namespace ns) project.config.peers) peer_unavailable
  let configured_path = if is_absolute peer.path then peer.path else join project.root peer.path
  canonical_root ← or_error (fs.canonicalize configured_path) peer_unavailable
  guard (is_dir fs canonical_root) peer_unavailable
  ok (record { displayed_root = configured_path; canonical_root = canonical_root; namespace = ns })

unfoldable pub route_for_namespace : Fs → Project → Text → PeerResult Route
unfolding local_route peer_route
route_for_namespace fs project ns =
    if text_eq ns (namespace project) then local_route fs project ns else peer_route fs project ns

-- The loop over the peers, with the namespaces and aliases seen so far.
unfoldable pub check_peers :
    Text → List PeerRouteConfig → List Text → List Text → PeerResult (Unit {0})
check_peers own [] namespaces aliases = ok tt
check_peers own (peer ∷ peers) namespaces aliases = do
  non_blank "peers.alias" peer.alias
  validate_namespace peer.namespace
  guard (not (text_eq peer.namespace own)) (validation "peers.namespace")
  guard (not (contains peer.namespace namespaces)) (validation "peers.namespace")
  guard (not (contains peer.alias aliases)) (validation "peers.alias")
  if is_absolute peer.path then ok tt else validate_relative_path peer.path "peers.path"
  check_peers own peers (peer.namespace ∷ namespaces) (peer.alias ∷ aliases)

unfoldable pub check_serving_dir : Option Text → PeerResult (Unit {0})
check_serving_dir none = ok tt
check_serving_dir (some path) = validate_relative_path path "serving_dir"

unfoldable pub validate_project_config : ProjectConfig → PeerResult (Unit {0})
unfolding check_peers check_serving_dir
validate_project_config config = do
  guard (config.schema_version == 1) (validation "schema_version")
  validate_namespace config.namespace
  check_serving_dir config.serving_dir
  guard (not (is_empty config.owner_teams)) (validation "owner_teams")
  for_each (non_blank "owner_teams") config.owner_teams
  check_peers config.namespace config.peers [] []

unfoldable pub checked_asset_path : Fs → Text → Text → Text → PeerResult (Text × Text)
checked_asset_path fs displayed_root canonical_root relative = do
  validate_relative_path relative "asset.path"
  let displayed = join displayed_root relative
  canonical ← or_error (fs.canonicalize displayed) peer_unavailable
  guard (path_starts_with canonical canonical_root) policy
  metadata ← lift_io (fs.metadata canonical)
  guard metadata.is_file policy
  ok (displayed, canonical)
