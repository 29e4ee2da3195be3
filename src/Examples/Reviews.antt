-- ===== src/Examples/Reviews.antt =====
-- A publication that is prepared for review in a project whose configuration is on disk, and executed.
use feather_mesh.Prelude.{◌≡◌, refl, none, some, [], ◌∷◌, text_eq, codes, ok, if◌then◌else◌}
use feather_mesh.Peer.Types.{PublicationResponse}
use feather_mesh.Peer.Env.{Fs}
use feather_mesh.Peer.Mutation.{local_manifest_revision}
use feather_mesh.Peer.Opening.{ProjectFiles, open_project, configuration_fingerprint}
use feather_mesh.Interactive.{
  OperationResult, Reviews, PreparedPublication, prepare_publication, execute_publication,
}
use feather_mesh.Examples.World.{fs, project, request, os, candidate, libraries}
use feather_mesh.Examples.Publishing.{publishing}

abbrev pub configured : Fs
configured = record fs {
  read = λ p. if text_eq p (codes "/p/.feam/project.toml") then ok (9 ∷ []) else fs.read p;
}

abbrev pub project_files : ProjectFiles
project_files = record {
  current_dir = codes "/";
  decode_toml = λ b. if text_eq b (9 ∷ []) then some project.config else none;
  debug_text = λ r. [];
}

abbrev reviews : Reviews
reviews = record {
  encode_request = λ r. some [];
  encode_states = λ s. some [];
  path_state = λ f p. ok [];
}

abbrev review : PreparedPublication
review = record {
  operation_id = codes "op";
  project_root = codes "/p";
  configuration_fingerprint = 9 ∷ [];
  expected_manifest_revision = 0;
  draft_fingerprint = [];
  request = request;
  estimated_asset_bytes = 1;
  validated = candidate;
  inventory_fingerprint = [];
  source_state = [];
}

abbrev executed : Fs × OperationResult PublicationResponse
executed = execute_publication project_files reviews libraries os configured configured review

-- The review is what `prepare_publication` returns.
reviewed :
    prepare_publication project_files reviews libraries os
      (codes "op")
      configured
      (codes "/p")
      request
    ≡ ok review
unfolding publishing prepare_publication open_project configuration_fingerprint
    local_manifest_revision
reviewed = refl
