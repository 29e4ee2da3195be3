-- ===== src/Examples/Projects.antt =====
-- A project with two peers.
use feather_mesh.Prelude.{◌≡◌, refl, none, [], ◌∷◌, All, codes, ok}
use feather_mesh.Peer.Types.{ProjectConfig}
use feather_mesh.Peer.Project.{check_peers, check_serving_dir, validate_project_config}
use feather_mesh.Peer.Project.Peers.{IsReachable, validate_project_config-IsReachable}
use feather_mesh.Examples.Publishing.{publishing}

abbrev config : ProjectConfig
config = record {
  schema_version = 1;
  namespace = codes "lab";
  serving_dir = none;
  owner_teams = codes "team" ∷ [];
  peers =
      record { alias = codes "a"; path = codes "/x"; namespace = codes "n1" }
      ∷ record { alias = codes "b"; path = codes "y"; namespace = codes "n2" }
      ∷ [];
}

accepted : validate_project_config config ≡ ok tt
unfolding publishing validate_project_config check_peers check_serving_dir
accepted = refl

validate_project_config-IsReachable_example :
    All (IsReachable config.namespace config.peers) config.peers
validate_project_config-IsReachable_example = validate_project_config-IsReachable config accepted
