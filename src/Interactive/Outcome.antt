-- ===== src/Interactive/Outcome.antt =====
-- What the execution of a reviewed operation has done, by the state that it reports.
use feather_mesh.Prelude.{◌≡◌, none, some, ok}
use feather_mesh.Peer.Error.{PeerError, kind, PeerResult}
use feather_mesh.Peer.Types.{Project, PublicationResponse}
use feather_mesh.Peer.Env.{Fs, External, Os}
use feather_mesh.Peer.Opening.{ProjectFiles}
use feather_mesh.Peer.Mutation.{publish_reviewed}
use feather_mesh.Peer.Mutation.Outcome.{Published}
use feather_mesh.Interactive.{
  OperationResult, committed, failed_before_commit, outcome_unknown, Reviews, PreparedPublication,
  reopen, check_sources,
}

-- Nothing was written, and the report says why.
pub record IsNotExecuted {A : Type 0} (fs : Fs) (answer : Fs × OperationResult A) : Type 0 where
  pub error : PeerError
  pub unchanged : answer.0 ≡ fs
  pub failed : answer.1.state ≡ failed_before_commit
  pub named : answer.1.error_kind ≡ some (kind error)
  pub no_result : answer.1.result ≡ none

-- The operating system failed, and the report leaves open what was written.
pub record IsUnknown {A : Type 0} (answer : Fs × OperationResult A) : Type 0 where
  pub state : answer.1.state ≡ outcome_unknown
  pub named : answer.1.error_kind ≡ some "filesystem_error"
  pub no_result : answer.1.result ≡ none

module _ (t : ProjectFiles) (v : Reviews) (x : External) (os : Os) (seen fs : Fs)
    (p : PreparedPublication) where
  abbrev reviewed_publication : Project → Fs × PeerResult PublicationResponse
  reviewed_publication project =
      publish_reviewed x os seen fs project p.request (some p.expected_manifest_revision)
        (some p.inventory_fingerprint)

  -- The configuration and the sources are the reviewed ones, and the publication has been committed
  -- on the reviewed revision, with the reviewed inventory.
  pub record IsPublished (answer : Fs × OperationResult PublicationResponse) : Type 0 where
    pub project : Project
    pub response : PublicationResponse
    pub reopened : reopen t x seen p.project_root p.configuration_fingerprint ≡ ok project
    pub sources : check_sources v x seen project p ≡ ok tt
    pub published :
        Published x os seen fs project p.request
          (some p.expected_manifest_revision)
          (some p.inventory_fingerprint)
          (reviewed_publication project)
    pub stored : answer.0 ≡ (reviewed_publication project).0
    pub state : answer.1.state ≡ committed
    pub result : answer.1.result ≡ some response
    pub reported : (reviewed_publication project).1 ≡ ok response
