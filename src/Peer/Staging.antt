-- ===== src/Peer/Staging.antt =====
-- `stage` and `preflight_stage` of peer_access.rs. The five names in the parent directory that a staging
-- uses are the record `Slots`, and what the operating system answers is the record `StageOs`.
pub mod Copies
pub mod Outcome
use feather_mesh.Prelude.{
  ℕ, ◌==◌, Bool, true, false, ◌&&◌, ◌||◌, not, Option, none, some, List, [], ◌∷◌, ◌++◌, Text, codes,
  text_eq, is_empty, for_each, insert, Result, ok, err, ok_or, guard, ◌>>=◌, ◌>>◌, if◌then◌else◌,
}
use feather_mesh.Std.FilePath.{
  Component, normal, components, path_eq, path_starts_with, join, parent, file_name, with_file_name,
}
use feather_mesh.Peer.Error.{
  IoKind, PeerError, PeerResult, io, json, policy, dataset_not_registered, peer_unavailable,
}
use feather_mesh.Peer.Token.{reference}
use feather_mesh.Peer.Env.{Fs, lift_io, or_error, exists, is_dir}
use feather_mesh.Peer.Opening.{ProjectFiles, absolute_path}
use feather_mesh.Peer.Resolve.{ResolvedAsset, ResolvedProduct}

-- `protocol` is the constant PEER_PROTOCOL_VERSION.
pub record StageReceipt : Type 0 where
  pub reference : Text
  pub version : Text
  pub manifest_revision : ℕ
  pub assets : List ResolvedAsset
  pub output_path : Text
  pub retrieved_at : Text

-- A link's own metadata, and the device and inode of a file.
pub record Links : Type 0 where
  pub is_symlink : Text → Option Bool
  pub is_regular : Text → Bool
  pub inode : Text → Result IoKind (ℕ × ℕ)

unfoldable pub receipt_path : Text → Text
unfolding with_file_name file_name
receipt_path out =
    with_file_name out
      ((elim (file_name out) [ none ↦ [] | some name ↦ name ]) ++ codes ".feam-receipt.json")

abbrev pub is_link : Links → Text → Bool
is_link l path = elim (l.is_symlink path) [ none ↦ false | some b ↦ b ]

abbrev pub is_there : Links → Text → Bool
is_there l path = elim (l.is_symlink path) [ none ↦ false | some b ↦ true ]

-- Neither the output nor its receipt is a link, and a receipt that is there is a file.
unfoldable pub check_place : Links → Text → Text → PeerResult (Unit {0})
unfolding path_eq
check_place l receipt path =
    guard
      (not (is_there l path && (is_link l path || path_eq path receipt && not (l.is_regular path))))
      policy

-- A link that leads nowhere.
unfoldable pub is_dangling : Fs → Links → Text → Bool
is_dangling fs l out = elim (fs.canonicalize out) [ ok path ↦ false | err k ↦ is_link l out ]

abbrev pub is_path : Result IoKind Text → Text → Bool
is_path (ok path) source = path_eq path source
is_path (err k) source = false

abbrev pub same_inode : ℕ × ℕ → ℕ × ℕ → Bool
same_inode a b = a.0 == b.0 && a.1 == b.1

-- The source is not another name of what is there under a path; nothing need be there.
unfoldable pub check_alias : Links → Text → Result IoKind (ℕ × ℕ) → PeerResult (Unit {0})
check_alias l source (err k) = ok tt
check_alias l source (ok target) = do
  inode ← lift_io (l.inode source)
  guard (not (same_inode inode target)) policy

unfoldable pub check_source :
    Fs → Links → Text → Text → Text → ResolvedAsset → PeerResult (Unit {0})
unfolding path_eq path_starts_with check_alias
check_source fs l out effective_out receipt asset = do
  source ← or_error (fs.canonicalize asset.project_access_path) peer_unavailable
  guard (not (is_path (fs.canonicalize out) source || path_eq receipt source)) policy
  guard (not (path_starts_with source effective_out || path_starts_with effective_out source))
      policy
  check_alias l source (l.inode receipt)
  check_alias l source (l.inode out)

unfoldable pub preflight_stage : Fs → Links → ResolvedProduct → Text → Bool → PeerResult (Unit {0})
unfolding parent file_name join receipt_path check_place is_dangling exists check_source
preflight_stage fs l resolved out overwrite = do
  dir ← ok_or (parent out) policy
  canonical ← lift_io (fs.canonicalize dir)
  name ← ok_or (file_name out) policy
  let effective_out = join canonical name
  let receipt = receipt_path effective_out
  check_place l receipt out
  check_place l receipt receipt
  guard (not (is_dangling fs l out)) policy
  guard (not (exists fs out && not overwrite)) policy
  for_each (check_source fs l out effective_out receipt) resolved.assets

-- A file's bytes, or a directory's files by their names.
pub data Node : Type 0 where
  file : List ℕ → Node
  directory : List (Text × List ℕ) → Node

-- What stands under the output's name, its receipt's, and the three names with the nonce.
pub record Slots : Type 0 where
  pub output : Option Node
  pub receipt : Option Node
  pub temporary : Option Node
  pub temporary_receipt : Option Node
  pub backup : Option Node

-- The errors of the steps, what a copy under a path that is no entry of the new directory changes, what a
-- copy or removal that fails leaves behind, the JSON of a receipt, and the time.
pub record StageOs : Type 0 where
  pub copy : ResolvedAsset → Result IoKind (List ℕ)
  pub copy_elsewhere :
      ResolvedAsset → List ℕ → Slots × List (Text × List ℕ) → Slots × List (Text × List ℕ)
  pub create_error : Option IoKind
  pub unfinished : Option Node
  pub write_error : Option IoKind
  pub backup_error : Option IoKind
  pub output_error : Option IoKind
  pub receipt_error : Option IoKind
  pub restore_error : Option IoKind
  pub remove_output_error : Option IoKind
  pub remove_backup_error : Option IoKind
  pub remove_temporary_error : Option IoKind
  pub remove_receipt_error : Option IoKind
  pub remains : Option Node → Option Node
  pub encode_receipt : StageReceipt → Option (List ℕ)
  pub now : Text

abbrev pub answered_io : Option IoKind → PeerResult (Unit {0})
answered_io none = ok tt
answered_io (some k) = err (io k)

-- `temporary.join(id)` is an entry of the temporary directory under this name.
unfoldable pub is_entry : Text → Bool
unfolding components text_eq
is_entry id = names_entry (components id)
  where
    names_entry : List Component → Bool
    names_entry (normal name ∷ []) = text_eq name id
    names_entry cs = false

-- A copy into the directory, or to wherever else the id leads.
unfoldable pub put_copy :
    StageOs → ResolvedAsset → List ℕ → Slots × List (Text × List ℕ) → Slots × List (Text × List ℕ)
unfolding is_entry insert
put_copy os a bytes there =
    if is_entry a.id then (there.0, insert a.id bytes there.1) else os.copy_elsewhere a bytes there

unfoldable pub copy_files :
    StageOs → List ResolvedAsset → Slots × List (Text × List ℕ) → Slots × PeerResult Node
unfolding put_copy
copy_files os [] there = (there.0, ok (directory there.1))
copy_files os (a ∷ assets) there = elim (os.copy a) [
  | err k ↦ (there.0, err (io k))
  | ok bytes ↦ copy_files os assets (put_copy os a bytes there)
]

abbrev pub copy_into :
    StageOs → List ResolvedAsset → Slots → Option IoKind → Slots × PeerResult Node
copy_into os assets s (some k) = (s, err (io k))
copy_into os assets s none = copy_files os assets (s, [])

-- The output: the only asset, or a directory of them by their ids.
unfoldable pub copy_assets : StageOs → List ResolvedAsset → Slots → Slots × PeerResult Node
unfolding copy_files
copy_assets os (a ∷ []) s = (s, do bytes ← lift_io (os.copy a); ok (file bytes))
copy_assets os assets s = copy_into os assets s os.create_error

-- A removal, whose error leaves something behind.
abbrev pub removed : StageOs → Option IoKind → Option Node → Option Node
removed os none there = none
removed os (some k) there = os.remains there

-- The renaming of the backup to the output's name, whose error is not looked at.
abbrev pub restore : Bool → Option IoKind → Slots → Slots
restore false e s = s
restore true (some k) s = s
restore true none s = record s { output = s.backup; backup = none }

abbrev pub move_output : Bool → Slots → Slots
move_output false s = s
move_output true s = record s { output = none; backup = s.output }

-- What is left to do when output and receipt are in place.
unfoldable pub drop_backup :
    StageOs → Bool → StageReceipt → Option IoKind → Slots → Slots × PeerResult StageReceipt
drop_backup os false receipt e s = (s, ok receipt)
drop_backup os true receipt none s = (record s { backup = none }, ok receipt)
drop_backup os true receipt (some k) s = (record s { backup = os.remains s.backup }, err (io k))

unfoldable pub move_receipt :
    StageOs → Bool → StageReceipt → Option IoKind → Slots → Slots × PeerResult StageReceipt
unfolding drop_backup
move_receipt os had receipt (some k) s = (
  restore had os.restore_error (record s { output = removed os os.remove_output_error s.output }),
  err (io k),
)
move_receipt os had receipt none s =
    drop_backup os had receipt os.remove_backup_error
      (record s { receipt = s.temporary_receipt; temporary_receipt = none })

unfoldable pub move_temporary :
    StageOs → Bool → StageReceipt → Option IoKind → Slots → Slots × PeerResult StageReceipt
unfolding move_receipt
move_temporary os had receipt (some k) s = (restore had os.restore_error s, err (io k))
move_temporary os had receipt none s =
    move_receipt os had receipt os.receipt_error
      (record s { output = s.temporary; temporary = none })

abbrev pub has_node : Option Node → Bool
has_node none = false
has_node (some n) = true

unfoldable pub move_backup :
    StageOs → StageReceipt → Bool → Option IoKind → Slots → Slots × PeerResult StageReceipt
unfolding move_temporary
move_backup os receipt true (some k) s = (s, err (io k))
move_backup os receipt had e s = move_temporary os had receipt os.output_error (move_output had s)

unfoldable pub move_all : StageOs → StageReceipt → Slots → Slots × PeerResult StageReceipt
unfolding move_backup
move_all os receipt s = move_backup os receipt (has_node s.output) os.backup_error s

unfoldable pub stage_receipt : StageOs → ResolvedProduct → Text → StageReceipt
unfolding reference
stage_receipt os resolved out = record {
  reference = reference resolved.namespace resolved.product_id;
  version = resolved.version;
  manifest_revision = resolved.manifest_revision;
  assets = resolved.assets;
  output_path = out;
  retrieved_at = os.now;
}

-- The receipt beside the copied assets, and then the renames.
unfoldable pub write_receipt :
    StageOs
    → StageReceipt
    → Slots
    → Option IoKind
    → Option (List ℕ)
    → Slots × PeerResult StageReceipt
unfolding move_all
write_receipt os receipt s e none = (s, err json)
write_receipt os receipt s (some k) (some bytes) = (s, err (io k))
write_receipt os receipt s none (some bytes) =
    move_all os receipt (record s { temporary_receipt = some (file bytes) })

unfoldable pub stage_copied :
    StageOs → StageReceipt → Slots × PeerResult Node → Slots × PeerResult StageReceipt
unfolding write_receipt
stage_copied os receipt (s, err e) = (record s { temporary = os.unfinished }, err e)
stage_copied os receipt (s, ok node) =
    write_receipt os receipt (record s { temporary = some node }) os.write_error
      (os.encode_receipt receipt)

-- After an error the temporary names are removed.
unfoldable pub clean_up :
    StageOs → Slots × PeerResult StageReceipt → Slots × PeerResult StageReceipt
clean_up os (s, ok receipt) = (s, ok receipt)
clean_up os (s, err e) = (
  record s {
    temporary = removed os os.remove_temporary_error s.temporary;
    temporary_receipt = removed os os.remove_receipt_error s.temporary_receipt;
  },
  err e,
)

unfoldable pub check_stage : Fs → Links → ResolvedProduct → Text → Bool → PeerResult (Unit {0})
unfolding parent is_dir preflight_stage
check_stage fs l resolved out overwrite = do
  guard (not (is_empty resolved.assets)) dataset_not_registered
  dir ← ok_or (parent out) policy
  guard (is_dir fs dir) policy
  preflight_stage fs l resolved out overwrite

unfoldable pub stage_checked :
    StageOs
    → ResolvedProduct
    → Text
    → Slots
    → PeerResult (Unit {0})
    → Slots × PeerResult StageReceipt
unfolding clean_up stage_copied copy_assets stage_receipt
stage_checked os resolved out s (err e) = (s, err e)
stage_checked os resolved out s (ok u) =
    clean_up os (stage_copied os (stage_receipt os resolved out) (copy_assets os resolved.assets s))

-- `stage`
unfoldable pub stage :
    ProjectFiles
    → Fs
    → Links
    → StageOs
    → ResolvedProduct
    → Text
    → Bool
    → Slots
    → Slots × PeerResult StageReceipt
unfolding absolute_path check_stage stage_checked
stage t fs l os resolved path overwrite s =
    let out = absolute_path t path in
    stage_checked os resolved out s (check_stage fs l resolved out overwrite)
