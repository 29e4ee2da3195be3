-- ===== src/Interactive.antt =====
-- Reviewed publications and withdrawals of interactive_operations.rs: what a review binds, and what
-- its execution does. `path_state` and the JSON that is hashed are the record `Reviews`.
pub mod Outcome
pub mod Staged
use feather_mesh.Prelude.{
  ℕ, ◌+◌, Bool, true, false, not, ◌&&◌, Option, none, some, List, [], ◌∷◌, String, Text, text_eq,
  Result, ok, err, ok_or, guard, ◌>>=◌, ◌>>◌, if◌then◌else◌,
}
use feather_mesh.Std.FilePath.{join}
use feather_mesh.Peer.Error.{PeerError, PeerResult, io, json, conflict, policy, kind}
use feather_mesh.Peer.Token.{non_blank, parse_reference}
use feather_mesh.Peer.Types.{
  Project, DeclaredAsset, AssetRecord, PublishedVersion, PublicationRequest, PublicationResponse,
}
use feather_mesh.Peer.Env.{Fs, External, Os}
use feather_mesh.Peer.Project.{namespace, serving_root}
use feather_mesh.Peer.Opening.{ProjectFiles, open_project, configuration_fingerprint}
use feather_mesh.Peer.Validation.{validate_publication}
use feather_mesh.Peer.Mutation.{
  publication_fingerprint, publish_reviewed, withdraw_qualified, local_manifest_revision,
}
use feather_mesh.Peer.Resolve.{ResolvedAsset, resolve}

pub data OperationState : Type 0 where
  committed failed_before_commit committed_with_followup_error outcome_unknown : OperationState

pub record OperationResult (A : Type 0) : Type 0 where
  pub operation_id : Text
  pub state : OperationState
  pub result : Option A
  pub error_kind : Option String

-- What the code asks of serde_json and of a file's inode, times and type.
pub record Reviews : Type 0 where
  pub encode_request : PublicationRequest → Option (List ℕ)
  pub encode_states : List Text → Option (List ℕ)
  pub path_state : Fs → Text → PeerResult Text

pub record PreparedPublication : Type 0 where
  pub operation_id : Text
  pub project_root : Text
  pub configuration_fingerprint : Text
  pub expected_manifest_revision : ℕ
  pub draft_fingerprint : Text
  pub request : PublicationRequest
  pub estimated_asset_bytes : ℕ
  pub validated : PublishedVersion
  pub inventory_fingerprint : Text
  pub source_state : Text

pub record PreparedWithdrawal : Type 0 where
  pub operation_id : Text
  pub project_root : Text
  pub configuration_fingerprint : Text
  pub reference : Text
  pub version : Text
  pub reason : Text
  pub expected_manifest_revision : ℕ

pub record PreparedStage : Type 0 where
  pub operation_id : Text
  pub project_root : Text
  pub configuration_fingerprint : Text
  pub reference : Text
  pub version : Text
  pub expected_manifest_revision : ℕ
  pub inventory_fingerprint : Text
  pub destination : Text
  pub overwrite : Bool
  pub estimated_asset_bytes : ℕ
  pub receipt_path : Text
  pub assets : List ResolvedAsset
  pub destination_state : Text
  pub receipt_state : Text
  pub destination_exists : Bool

unfoldable pub outcome_state : PeerError → OperationState
outcome_state (io k) = outcome_unknown
outcome_state e = failed_before_commit

unfoldable pub operation_result : {A : Type 0} → Text → PeerResult A → OperationResult A
unfolding outcome_state kind
operation_result id (ok a) = record {
  operation_id = id;
  state = committed;
  result = some a;
  error_kind = none;
}
operation_result id (err e) = record {
  operation_id = id;
  state = outcome_state e;
  result = none;
  error_kind = some (kind e);
}

unfoldable pub draft_fingerprint_of : Reviews → External → PublicationRequest → PeerResult Text
draft_fingerprint_of v x request = do
  bytes ← ok_or (v.encode_request request) json
  ok (x.sha256_hex bytes)

unfoldable pub asset_states : Reviews → Fs → Text → List DeclaredAsset → PeerResult (List Text)
unfolding join
asset_states v fs root [] = ok []
asset_states v fs root (a ∷ rest) = do
  state ← v.path_state fs (join root a.path)
  states ← asset_states v fs root rest
  ok (state ∷ states)

unfoldable pub publication_source_state :
    Reviews → External → Fs → Project → PublicationRequest → PeerResult Text
unfolding asset_states serving_root
publication_source_state v x fs project request = do
  root ← serving_root fs project
  states ← asset_states v fs root request.assets
  bytes ← ok_or (v.encode_states states) json
  ok (x.sha256_hex bytes)

abbrev pub total_size : List AssetRecord → ℕ
total_size [] = 0
total_size (a ∷ rest) = a.size + total_size rest

unfoldable pub prepare_publication :
    ProjectFiles
    → Reviews
    → External
    → Os
    → Text
    → Fs
    → Text
    → PublicationRequest
    → PeerResult PreparedPublication
unfolding draft_fingerprint_of publication_source_state publication_fingerprint
prepare_publication t v x os operation_id fs project_root request = do
  project ← open_project t fs project_root
  candidate ← validate_publication x fs os.now project request
  source_state ← publication_source_state v x fs project request
  configuration ← configuration_fingerprint t x fs project
  revision ← local_manifest_revision x fs project
  draft ← draft_fingerprint_of v x request
  inventory ← publication_fingerprint x candidate
  ok (record {
    operation_id = operation_id;
    project_root = project.root;
    configuration_fingerprint = configuration;
    expected_manifest_revision = revision;
    draft_fingerprint = draft;
    request = request;
    estimated_asset_bytes = total_size candidate.assets;
    validated = candidate;
    inventory_fingerprint = inventory;
    source_state = source_state;
  })

unfoldable pub prepare_withdrawal :
    ProjectFiles
    → External
    → Text
    → (Text → Option Text)
    → Fs
    → Text
    → Text
    → Text
    → Text
    → PeerResult PreparedWithdrawal
unfolding non_blank parse_reference
prepare_withdrawal t x operation_id cached fs project_root reference version reason = do
  project ← open_project t fs project_root
  (ns, product_id) ← parse_reference reference
  guard (text_eq ns (namespace project)) policy
  non_blank "reason" reason
  resolved ← resolve x fs project reference version none false cached
  configuration ← configuration_fingerprint t x fs project
  revision ← local_manifest_revision x fs project
  ok (record {
    operation_id = operation_id;
    project_root = project.root;
    configuration_fingerprint = configuration;
    reference = reference;
    version = version;
    reason = reason;
    expected_manifest_revision = revision;
  })

-- Opening the project again, and the comparison with the configuration that was reviewed.
unfoldable pub reopen : ProjectFiles → External → Fs → Text → Text → PeerResult Project
unfolding open_project configuration_fingerprint
reopen t x fs root expected = do
  project ← open_project t fs root
  actual ← configuration_fingerprint t x fs project
  guard (text_eq actual expected) conflict
  ok project

-- `execute_with_project`
unfoldable pub execute_with :
    {S A : Type 0}
    → Text
    → S
    → PeerResult Project
    → (Project → S × PeerResult A)
    → S × OperationResult A
unfolding operation_result
execute_with id s (err e) execute = (s, operation_result id (err e))
execute_with id s (ok project) execute =
    let (s', answer) = execute project in (s', operation_result id answer)

-- The draft and the source files are the ones that were reviewed.
unfoldable pub check_sources :
    Reviews → External → Fs → Project → PreparedPublication → PeerResult (Unit {0})
unfolding draft_fingerprint_of publication_source_state
check_sources v x fs project p = do
  draft ← draft_fingerprint_of v x p.request
  guard (text_eq draft p.draft_fingerprint) conflict
  source ← publication_source_state v x fs project p.request
  guard (text_eq source p.source_state) conflict

unfoldable pub publish_checked :
    External
    → Os
    → Fs
    → Fs
    → Project
    → PreparedPublication
    → PeerResult (Unit {0})
    → Fs × PeerResult PublicationResponse
unfolding publish_reviewed
publish_checked x os seen fs project p (err e) = (fs, err e)
publish_checked x os seen fs project p (ok u) =
    publish_reviewed x os seen fs project p.request (some p.expected_manifest_revision)
      (some p.inventory_fingerprint)

-- `execute_publication`: `seen` is the file system of the checks, `fs` the one under the lock.
unfoldable pub execute_publication :
    ProjectFiles
    → Reviews
    → External
    → Os
    → Fs
    → Fs
    → PreparedPublication
    → Fs × OperationResult PublicationResponse
unfolding execute_with reopen publish_checked check_sources
execute_publication t v x os seen fs p =
    execute_with p.operation_id fs (reopen t x seen p.project_root p.configuration_fingerprint)
      (λ project. publish_checked x os seen fs project p (check_sources v x seen project p))

unfoldable pub execute_withdrawal :
    ProjectFiles
    → External
    → Os
    → Fs
    → PreparedWithdrawal
    → Fs × OperationResult PublicationResponse
unfolding execute_with reopen withdraw_qualified
execute_withdrawal t x os fs p =
    execute_with p.operation_id fs (reopen t x fs p.project_root p.configuration_fingerprint)
      (λ project.
        withdraw_qualified x os fs project p.reference p.version p.reason
          (some p.expected_manifest_revision))
