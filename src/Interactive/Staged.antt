-- ===== src/Interactive/Staged.antt =====
-- Reviewed stagings and the reconciliation of unknown outcomes in interactive_operations.rs. The JSON of an
-- inventory and of a receipt, and what a link is, are the record `StageReviews`.
use feather_mesh.Prelude.{
  ℕ, ◌+◌, ◌==◌, leb, Bool, true, false, not, ◌&&◌, Option, none, some, List, [], ◌∷◌, Text, text_eq,
  find, Result, ok, err, ok_or, guard, ◌>>=◌, ◌>>◌, if◌then◌else◌,
}
use feather_mesh.Std.FilePath.{join, path_eq}
use feather_mesh.Peer.Error.{IoKind, PeerResult, json, conflict}
use feather_mesh.Peer.Token.{reference, parse_reference}
use feather_mesh.Peer.Types.{Project, PublishedVersion}
use feather_mesh.Peer.Env.{Fs, External, lift_io, exists, read_bounded}
use feather_mesh.Peer.Project.{namespace}
use feather_mesh.Peer.Opening.{ProjectFiles, open_project, absolute_path, configuration_fingerprint}
use feather_mesh.Peer.Manifest.{max_manifest_bytes, is_withdrawn}
use feather_mesh.Peer.Validation.Inspect.{sha256_file}
use feather_mesh.Peer.Mutation.{publication_fingerprint}
use feather_mesh.Peer.Resolve.{ResolvedAsset, ResolvedProduct, resolve}
use feather_mesh.Peer.Listing.{Entry, list_registered_with_coverage}
use feather_mesh.Peer.Staging.{
  StageReceipt, Links, Slots, StageOs, receipt_path, preflight_stage, stage,
}
use feather_mesh.Interactive.{
  OperationState, committed, committed_with_followup_error, outcome_unknown, OperationResult,
  Reviews, PreparedPublication, PreparedStage, PreparedWithdrawal, execute_with, reopen,
}

pub record StageReviews : Type 0 where
  pub encode_inventory : ResolvedProduct → Option (List ℕ)
  pub encode_assets : List ResolvedAsset → Option (List ℕ)
  pub decode_receipt : List ℕ → Option StageReceipt
  pub symlink : Text → Result IoKind Bool

-- The fields of a `Publication` and a `Withdrawal` that both have are the first arguments.
pub data RecoveryIdentity : Type 0 where
  publication :
      (project_root reference version : Text) (revision : ℕ) (inventory_fingerprint : Text)
      → RecoveryIdentity
  staging :
      (project_root reference version : Text) (revision : ℕ) (destination receipt_state : Text)
      (assets : List ResolvedAsset)
      → RecoveryIdentity
  withdrawal :
      (project_root reference version : Text) (revision : ℕ) (reason : Text) → RecoveryIdentity

unfoldable pub identity_of_publication : PreparedPublication → RecoveryIdentity
unfolding reference
identity_of_publication p =
    publication p.project_root (reference p.request.namespace p.request.product_id)
      p.request.version p.expected_manifest_revision p.inventory_fingerprint

unfoldable pub identity_of_stage : PreparedStage → RecoveryIdentity
identity_of_stage p =
    staging p.project_root p.reference p.version p.expected_manifest_revision p.destination
      p.receipt_state p.assets

unfoldable pub identity_of_withdrawal : PreparedWithdrawal → RecoveryIdentity
identity_of_withdrawal p =
    withdrawal p.project_root p.reference p.version p.expected_manifest_revision p.reason

abbrev pub hashed : External → Option (List ℕ) → PeerResult Text
hashed x none = err json
hashed x (some bytes) = ok (x.sha256_hex bytes)

unfoldable pub inventory_fingerprint : External → StageReviews → ResolvedProduct → PeerResult Text
inventory_fingerprint x w resolved = hashed x (w.encode_inventory resolved)

abbrev pub is_file : Fs → Text → Bool
is_file fs path = elim (fs.metadata path) [ ok m ↦ m.is_file | err k ↦ false ]

-- A test that is made only if what comes before it holds.
abbrev pub and_also : Bool → PeerResult Bool → PeerResult Bool
and_also false rest = ok false
and_also true rest = rest

-- The bytes of an asset are the output's.
unfoldable pub is_content_there : External → Fs → Text → Option Text → PeerResult Bool
unfolding sha256_file text_eq
is_content_there x fs output none = ok false
is_content_there x fs output (some digest) = do
  actual ← sha256_file x fs output
  ok (text_eq actual digest)

unfoldable pub is_size_there : External → Fs → Text → ResolvedAsset → PeerResult Bool
unfolding is_content_there
is_size_there x fs output asset = do
  metadata ← lift_io (fs.metadata output)
  and_also (metadata.len == asset.size) (is_content_there x fs output asset.sha256)

unfoldable pub is_asset_there :
    External → Fs → StageReviews → Text → ResolvedAsset → PeerResult Bool
unfolding is_size_there
is_asset_there x fs w output asset = do
  link ← lift_io (w.symlink output)
  and_also (not link) (is_size_there x fs output asset)

abbrev pub output_of : Text → List ResolvedAsset → ResolvedAsset → Text
output_of destination (a ∷ []) asset = destination
output_of destination assets asset = join destination asset.id

unfoldable pub are_assets_there :
    External → Fs → StageReviews → (ResolvedAsset → Text) → List ResolvedAsset → PeerResult Bool
unfolding is_asset_there
are_assets_there x fs w output [] = ok true
are_assets_there x fs w output (a ∷ assets) = do
  there ← is_asset_there x fs w (output a) a
  and_also there (are_assets_there x fs w output assets)

-- The receipt names what was reviewed.
unfoldable pub is_receipt_of :
    External
    → StageReviews
    → StageReceipt
    → Text
    → Text
    → ℕ
    → Text
    → List ResolvedAsset
    → PeerResult Bool
unfolding text_eq path_eq
is_receipt_of x w receipt ref version revision destination assets =
    and_also
      (text_eq receipt.reference ref
        && text_eq receipt.version version
        && receipt.manifest_revision == revision
        && path_eq receipt.output_path destination)
      (hashed x (w.encode_assets receipt.assets) >>= λ found.
        hashed x (w.encode_assets assets) >>= λ expected. ok (text_eq found expected))

unfoldable pub is_staged :
    External
    → Reviews
    → StageReviews
    → Fs
    → Text
    → Text
    → ℕ
    → Text
    → Text
    → List ResolvedAsset
    → PeerResult Bool
unfolding receipt_path exists read_bounded text_eq is_receipt_of are_assets_there join
is_staged x v w fs ref version revision destination receipt_state assets =
    let path = receipt_path destination in
    and_also (is_file fs path) (
      v.path_state fs path >>= λ state.
      and_also (not (text_eq state receipt_state) && exists fs destination) (
        read_bounded fs path max_manifest_bytes >>= λ bytes.
        ok_or (w.decode_receipt bytes) json >>= λ receipt.
        is_receipt_of x w receipt ref version revision destination assets >>= λ same.
        and_also same (are_assets_there x fs w (output_of destination assets) assets)))

-- Whether a version shows that the operation was committed.
abbrev pub is_reason : Option Text → Text → Bool
is_reason none reason = false
is_reason (some given) reason = text_eq given reason

unfoldable pub shows_publication : External → Text → PublishedVersion → PeerResult Bool
unfolding publication_fingerprint text_eq
shows_publication x expected v = do
  actual ← publication_fingerprint x v
  ok (text_eq actual expected)

unfoldable pub shows_withdrawal : Text → PublishedVersion → PeerResult Bool
unfolding is_withdrawn text_eq
shows_withdrawal reason v = ok (is_withdrawn v.lifecycle && is_reason v.withdrawal_reason reason)

abbrev pub shown_in :
    (PublishedVersion → PeerResult Bool) → Option PublishedVersion → PeerResult Bool
shown_in shows none = ok false
shown_in shows (some v) = shows v

abbrev pub or_also : Bool → PeerResult Bool → PeerResult Bool
or_also true rest = ok true
or_also false rest = rest

unfoldable pub is_shown :
    (PublishedVersion → PeerResult Bool) → Text → Text → Text → ℕ → List Entry → PeerResult Bool
unfolding text_eq
is_shown shows ns product_id version revision [] = ok false
is_shown shows ns product_id version revision ((n, product, current) ∷ es) = do
  found ←
      and_also (text_eq n ns && text_eq product.id product_id && not (leb current revision))
        (shown_in shows (find (λ v. text_eq v.version version) product.versions))
  or_also found (is_shown shows ns product_id version revision es)

unfoldable pub is_mutated :
    ProjectFiles
    → External
    → Fs
    → Text
    → (PublishedVersion → PeerResult Bool)
    → Text
    → Text
    → Text
    → ℕ
    → PeerResult Bool
unfolding open_project parse_reference list_registered_with_coverage is_shown
is_mutated t x fs now shows project_root ref version revision = do
  project ← open_project t fs project_root
  (ns, product_id) ← parse_reference ref
  and_also (text_eq ns (namespace project)) (
      list_registered_with_coverage x fs project now >>= λ listing.
      is_shown shows ns product_id version revision listing.entries)

abbrev pub state_of : Bool → OperationState
state_of true = committed
state_of false = outcome_unknown

unfoldable pub is_committed :
    ProjectFiles
    → External
    → Reviews
    → StageReviews
    → Fs
    → Text
    → RecoveryIdentity
    → PeerResult Bool
unfolding is_mutated is_staged shows_publication shows_withdrawal
is_committed t x v w fs now (publication root ref version revision inventory) =
    is_mutated t x fs now (shows_publication x inventory) root ref version revision
is_committed t x v w fs now (staging root ref version revision destination receipt_state assets) =
    is_staged x v w fs ref version revision destination receipt_state assets
is_committed t x v w fs now (withdrawal root ref version revision reason) =
    is_mutated t x fs now (shows_withdrawal reason) root ref version revision

unfoldable pub reconcile :
    ProjectFiles
    → External
    → Reviews
    → StageReviews
    → Fs
    → Text
    → RecoveryIdentity
    → PeerResult OperationState
unfolding is_committed
reconcile t x v w fs now identity = do
  found ← is_committed t x v w fs now identity
  ok (state_of found)

abbrev pub total_asset_size : List ResolvedAsset → ℕ
total_asset_size [] = 0
total_asset_size (a ∷ rest) = a.size + total_asset_size rest

unfoldable pub prepare_stage :
    ProjectFiles
    → External
    → Reviews
    → StageReviews
    → Links
    → Text
    → (Text → Option Text)
    → Fs
    → Text
    → Text
    → Text
    → Text
    → Bool
    → PeerResult PreparedStage
unfolding open_project resolve absolute_path preflight_stage configuration_fingerprint
    inventory_fingerprint receipt_path exists
prepare_stage t x v w l operation_id cached fs project_root ref version path overwrite = do
  project ← open_project t fs project_root
  resolved ← resolve x fs project ref version none false cached
  let destination = absolute_path t path
  preflight_stage fs l resolved destination overwrite
  configuration ← configuration_fingerprint t x fs project
  inventory ← inventory_fingerprint x w resolved
  destination_state ← v.path_state fs destination
  receipt_state ← v.path_state fs (receipt_path destination)
  ok (record {
    operation_id = operation_id;
    project_root = project.root;
    configuration_fingerprint = configuration;
    reference = ref;
    version = version;
    expected_manifest_revision = resolved.manifest_revision;
    inventory_fingerprint = inventory;
    destination = destination;
    overwrite = overwrite;
    estimated_asset_bytes = total_asset_size resolved.assets;
    receipt_path = receipt_path destination;
    assets = resolved.assets;
    destination_state = destination_state;
    receipt_state = receipt_state;
    destination_exists = exists fs destination;
  })

-- The destination and the inventory are the ones that were reviewed.
unfoldable pub check_reviewed_stage :
    External
    → Reviews
    → StageReviews
    → (Text → Option Text)
    → Fs
    → Project
    → PreparedStage
    → PeerResult ResolvedProduct
unfolding resolve inventory_fingerprint text_eq
check_reviewed_stage x v w cached fs project p = do
  destination_state ← v.path_state fs p.destination
  guard (text_eq destination_state p.destination_state) conflict
  receipt_state ← v.path_state fs p.receipt_path
  guard (text_eq receipt_state p.receipt_state) conflict
  current ← resolve x fs project p.reference p.version none false cached
  guard (current.manifest_revision == p.expected_manifest_revision) conflict
  inventory ← inventory_fingerprint x w current
  guard (text_eq inventory p.inventory_fingerprint) conflict
  ok current

unfoldable pub stage_reviewed :
    ProjectFiles
    → Fs
    → Links
    → StageOs
    → PreparedStage
    → Slots
    → PeerResult ResolvedProduct
    → Slots × PeerResult StageReceipt
unfolding stage
stage_reviewed t fs l os p s (err e) = (s, err e)
stage_reviewed t fs l os p s (ok current) = stage t fs l os current p.destination p.overwrite s

-- An unknown outcome that reconciliation finds committed.
abbrev pub is_found_committed : PeerResult OperationState → Bool
is_found_committed (ok committed) = true
is_found_committed r = false

abbrev pub with_reconciled :
    {A : Type 0}
    → PeerResult OperationState
    → OperationState
    → OperationResult A
    → OperationResult A
with_reconciled r outcome_unknown o =
    if is_found_committed r then record o { state = committed_with_followup_error } else o
with_reconciled r state o = o

abbrev pub followed_up :
    (Slots → PeerResult OperationState)
    → Slots × OperationResult StageReceipt
    → Slots × OperationResult StageReceipt
followed_up found (s, o) = (s, with_reconciled (found s) o.state o)

-- `execute_stage`: `seen` is the file system of the checks, `after` the one that the staging has left.
unfoldable pub execute_stage :
    ProjectFiles
    → External
    → Reviews
    → StageReviews
    → Links
    → StageOs
    → (Text → Option Text)
    → Fs
    → (Slots → Fs)
    → Slots
    → PreparedStage
    → Slots × OperationResult StageReceipt
unfolding reopen execute_with check_reviewed_stage stage_reviewed reconcile identity_of_stage
execute_stage t x v w l os cached seen after s p =
    followed_up (λ s'. reconcile t x v w (after s') os.now (identity_of_stage p))
      (execute_with p.operation_id s (reopen t x seen p.project_root p.configuration_fingerprint)
        (λ project.
          stage_reviewed t seen l os p s (check_reviewed_stage x v w cached seen project p)))
