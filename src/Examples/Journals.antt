-- ===== src/Examples/Journals.antt =====
-- The outcome of an operation whose intent is pending.
use feather_mesh.Prelude.{◌≡◌, refl, true, false, none, some, [], ◌∷◌, text_eq, codes, ok}
use feather_mesh.Std.Char.{is_ascii_alphanumeric, is_ascii_digit}
use feather_mesh.Journal.{
  pending_file, name_eq, Directory, find_file, remove_file, store_file, Faults, record_outcome,
  rename_outcome, finish_outcome, remove_intent, apply, move_file, write_new_private_file,
  write_created, validate_id, record_intent, prune_completed, remove_outcomes, completed_ids,
  sort_ids, insert_sorted, write_intent,
}
use feather_mesh.Journal.Crash.{is_covered, AllCovered, record_outcome-covered}
use feather_mesh.Journal.Intents.{IsPending, record_intent-IsPending}
use feather_mesh.Journal.Settled.{IsSettled, record_outcome-IsSettled}

abbrev no_faults : Faults
no_faults = record {
  creating = none;
  writing = none;
  renaming = none;
  syncing = none;
  syncing_again = none;
  removing = none;
}

abbrev directory : Directory
directory = (pending_file (codes "op-1"), 1 ∷ []) ∷ []

intended : is_covered (codes "op-1") directory ≡ true
unfolding find_file name_eq text_eq
intended = refl

recorded :
    (record_outcome no_faults (codes "op-1") (codes "op-1") false (some (2 ∷ [])) directory).answer
    ≡ ok tt
unfolding record_outcome write_new_private_file write_created rename_outcome finish_outcome
    remove_intent apply move_file store_file remove_file find_file name_eq text_eq validate_id
    is_ascii_alphanumeric is_ascii_digit
recorded = refl

record_outcome-covered_example :
    AllCovered
      (codes "op-1")
      directory
      (record_outcome no_faults (codes "op-1") (codes "op-1") false (some (2 ∷ [])) directory)
record_outcome-covered_example =
    record_outcome-covered (codes "op-1") no_faults (codes "op-1") false (some (2 ∷ [])) directory
      intended

record_outcome-IsSettled_example :
    IsSettled
      (codes "op-1")
      false
      (2 ∷ [])
      directory
      (record_outcome no_faults (codes "op-1") (codes "op-1") false (some (2 ∷ [])) directory).last
record_outcome-IsSettled_example =
    record_outcome-IsSettled (codes "op-1") false (2 ∷ []) no_faults (codes "op-1") directory
      recorded

intent_recorded : (record_intent no_faults (codes "op-2") (some (3 ∷ [])) directory).answer ≡ ok tt
unfolding record_intent prune_completed remove_outcomes completed_ids sort_ids insert_sorted
    write_intent write_new_private_file write_created apply store_file remove_file find_file name_eq
    text_eq validate_id is_ascii_alphanumeric is_ascii_digit
intent_recorded = refl

record_intent-IsPending_example :
    IsPending
      (codes "op-2")
      (3 ∷ [])
      directory
      (record_intent no_faults (codes "op-2") (some (3 ∷ [])) directory).last
record_intent-IsPending_example =
    record_intent-IsPending (codes "op-2") (3 ∷ []) no_faults directory intent_recorded
