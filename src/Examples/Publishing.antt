-- ===== src/Examples/Publishing.antt =====
-- A first publication, and what the theorems on publication say of it.
use native.Mathlib.Decide.{ℕ_discrete}
use feather_mesh.Prelude.{◌≡◌, refl, none, some, text_eq, starts_with, lookup, contains, codes, ok}
use feather_mesh.Std.Char.{is_ascii_digit, is_ascii_alphanumeric, is_whitespace}
use feather_mesh.Std.Str.{
  trim, trim_start, trim_end, split_on, cons_first, split_once, prepend, strip_prefix,
}
use feather_mesh.Std.FilePath.{
  components, relative_components, body, piece, is_absolute, join, ends_with_sep, path_starts_with,
  is_prefix, component_eq, path_eq,
}
use feather_mesh.Peer.Token.{
  non_blank, is_token_char, validate_token, validate_namespace, validate_product_id,
  validate_version, reference, validate_relative_path, is_normal,
}
use feather_mesh.Peer.Env.{Fs, exists, is_dir, read_bounded, replace_file, write_atomic_text}
use feather_mesh.Peer.Project.{serving_root, checked_asset_path}
use feather_mesh.Peer.Validation.{
  validate_publication_fields, validate_publication, text_fields, check_profiles, check_lineage,
  validate_assets, validate_asset, inspect_asset, optional_digest, merge_descriptors,
}
use feather_mesh.Peer.Validation.Inspect.{
  inspect_parquet, merge_table_descriptors, sha256_file, check_column, is_column, sum_rows, map_eq,
}
use feather_mesh.Peer.Manifest.{
  read_manifest_at, read_or_empty_manifest, write_manifest_atomic, write_encoded, add_version,
  cons_product, bump, empty_manifest, empty_if_missing, parse_manifest, withdraw_version,
  withdraw_in, set_versions, cons_version, is_withdrawn,
}
use feather_mesh.Peer.Mutation.{
  prepare_publish, publish_prepared, publish_reviewed, publication_edit, commit, check_fingerprint,
  publication_fingerprint, check_revision, check_digest, recheck_asset, recheck_candidate,
  published_response, prepare_withdraw, withdrawal_edit, withdraw_prepared,
  withdraw_with_precondition, withdrawn_response,
}
use feather_mesh.Peer.Error.{PeerResult}
use feather_mesh.Peer.Types.{PublicationResponse}
use feather_mesh.Examples.World.{
  fs, project, request, os, candidate, manifest, withdrawn_manifest, libraries,
  ServingManifest-discrete,
}

-- The definitions that a publication runs through, for the tests to unfold together.
unfoldable pub publishing : Unit {0}
unfolding text_eq starts_with lookup contains is_ascii_digit is_ascii_alphanumeric is_whitespace
    trim trim_start trim_end split_on cons_first split_once prepend strip_prefix components
    relative_components body piece is_absolute join ends_with_sep path_starts_with is_prefix
    component_eq path_eq non_blank is_token_char validate_token validate_namespace
    validate_product_id validate_version reference validate_relative_path is_normal exists is_dir
    read_bounded replace_file write_atomic_text serving_root checked_asset_path
    validate_publication_fields validate_publication text_fields check_profiles check_lineage
    validate_assets validate_asset inspect_asset optional_digest merge_descriptors inspect_parquet
    merge_table_descriptors sha256_file check_column is_column sum_rows map_eq read_manifest_at
    read_or_empty_manifest write_manifest_atomic write_encoded add_version cons_product bump
    empty_manifest empty_if_missing parse_manifest prepare_publish publish_prepared publish_reviewed
    publication_edit commit check_fingerprint check_revision check_digest recheck_asset
    recheck_candidate prepare_withdraw withdrawal_edit withdraw_prepared withdraw_with_precondition
    withdraw_version withdraw_in set_versions cons_version is_withdrawn ServingManifest-discrete
    ℕ_discrete publication_fingerprint
publishing = tt

pub serving_root-provider : serving_root fs project ≡ ok (codes "/p/s")
unfolding publishing
serving_root-provider = refl

pub prepared : prepare_publish libraries os fs project request ≡ ok (candidate, codes "/p/s")
unfolding publishing
prepared = refl

-- The first publication, reviewed against a manifest that is not there yet.
abbrev pub answer : Fs × PeerResult PublicationResponse
answer = publish_reviewed libraries os fs fs project request (some 0) none

pub answered : answer.1 ≡ ok (published_response candidate manifest)
unfolding publishing
answered = refl

-- The withdrawal of the version that was published.
abbrev pub withdrawal_answer : Fs × PeerResult PublicationResponse
withdrawal_answer =
    withdraw_with_precondition libraries os answer.0 project (codes "obs") (codes "v1")
      (codes "bad") (some 1)

pub withdrawal_answered :
    withdrawal_answer.1 ≡ ok (withdrawn_response (codes "obs") (codes "v1") withdrawn_manifest)
unfolding publishing
withdrawal_answered = refl
