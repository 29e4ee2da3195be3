-- ===== src/Examples/Stagings.antt =====
-- A staging of one file beside an older output.
use feather_mesh.Prelude.{
  ◌≡◌, refl, true, false, none, some, [], ◌∷◌, text_eq, codes, ok, err, if◌then◌else◌,
}
use feather_mesh.Std.FilePath.{
  is_absolute, join, components, body, piece, relative_components, component_eq, components_eq,
  path_eq, is_prefix, path_starts_with, path_of, last_component, parent, file_name, with_file_name,
  ends_with_sep,
}
use feather_mesh.Std.Str.{split_on, cons_first}
use feather_mesh.Peer.Error.{io_not_found}
use feather_mesh.Peer.Env.{Fs, exists, is_dir}
use feather_mesh.Peer.Opening.{absolute_path}
use feather_mesh.Peer.Resolve.{ResolvedProduct}
use feather_mesh.Peer.Staging.{
  Links, file, Slots, StageOs, receipt_path, check_place, is_dangling, check_alias, check_source,
  preflight_stage, copy_files, copy_assets, drop_backup, move_receipt, move_temporary, move_backup,
  move_all, stage_receipt, write_receipt, stage_copied, clean_up, check_stage, stage_checked, stage,
}
use feather_mesh.Examples.World.{candidate}
use feather_mesh.Examples.Reviews.{project_files}

abbrev stage_fs : Fs
stage_fs = record {
  metadata = λ p.
      if text_eq p (codes "/out")
      then ok (record { is_file = false; is_dir = true; len = 0 })
      else if text_eq p (codes "/out/x")
      then ok (record { is_file = true; is_dir = false; len = 1 })
      else err io_not_found;
  canonicalize = λ p. ok p;
  read = λ p. err io_not_found;
}

abbrev links : Links
links = record {
  is_symlink = λ p. if text_eq p (codes "/out/x") then some false else none;
  is_regular = λ p. true;
  inode = λ p.
      if text_eq p (codes "/data/a")
      then ok (1, 1)
      else if text_eq p (codes "/out/x")
      then ok (1, 2)
      else err io_not_found;
}

abbrev stage_os : StageOs
stage_os = record {
  copy = λ a. ok (7 ∷ 8 ∷ []);
  copy_elsewhere = λ a bytes there. there;
  create_error = none;
  unfinished = none;
  write_error = none;
  backup_error = none;
  output_error = none;
  receipt_error = none;
  restore_error = none;
  remove_output_error = none;
  remove_backup_error = none;
  remove_temporary_error = none;
  remove_receipt_error = none;
  remains = λ n. n;
  encode_receipt = λ r. some r.output_path;
  now = codes "t";
}

abbrev resolved : ResolvedProduct
resolved = record {
  namespace = codes "lab";
  product_id = codes "obs";
  version = codes "v1";
  manifest_revision = 3;
  assets =
      record {
        id = codes "a";
        project_access_path = codes "/data/a";
        media_type = codes "m";
        role = codes "data";
        size = 2;
        sha256 = none;
      }
      ∷ [];
  from_record = candidate;
  cache_refreshed_at = none;
  integrity_verified = false;
}

abbrev slots : Slots
slots = record {
  output = some (file (1 ∷ []));
  receipt = none;
  temporary = none;
  temporary_receipt = none;
  backup = none;
}

-- This staging succeeds.
output_replaced :
    stage project_files stage_fs links stage_os resolved (codes "/out/x") true slots ≡ (
      record {
        output = some (file (7 ∷ 8 ∷ []));
        receipt = some (file (codes "/out/x"));
        temporary = none;
        temporary_receipt = none;
        backup = none;
      },
      ok (stage_receipt stage_os resolved (codes "/out/x")),
    )
unfolding stage stage_checked check_stage clean_up stage_copied write_receipt move_all move_backup
    move_temporary move_receipt drop_backup copy_assets copy_files preflight_stage check_source
    check_alias is_dangling check_place receipt_path absolute_path exists is_dir is_absolute join
    components body piece relative_components component_eq components_eq path_eq is_prefix
    path_starts_with path_of last_component parent file_name with_file_name ends_with_sep split_on
    cons_first text_eq
output_replaced = refl
