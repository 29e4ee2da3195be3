-- ===== src/Journal.antt =====
-- operation_journal.rs: intents and outcomes of operations as files of a private directory. A run lists its
-- steps; a crash loses any of those that were not followed by a sync of the directory.
pub mod Crash
pub mod Runs
pub mod Intents
pub mod Settled
use feather_mesh.Prelude.{
  ℕ, Bool, true, false, not, ◌&&◌, ◌||◌, ◌==◌, ltb, Option, none, some, List, [], ◌∷◌, ◌++◌, Text,
  text_eq, codes, ◌-◌, is_empty, all, length, take, map, Result, ok, err, if◌then◌else◌,
}
use feather_mesh.Std.Char.{is_ascii_alphanumeric}
use feather_mesh.Peer.Error.{IoKind, io_already_exists, io_not_found}

-- `{id}.pending`, `{id}.json` and `.{id}.tmp`: an id has no dot, so the names are distinct.
pub data FileName : Type 0 where
  pending_file final_file temporary_file : Text → FileName

unfoldable pub name_eq : FileName → FileName → Bool
name_eq (pending_file i) (pending_file j) = text_eq i j
name_eq (final_file i) (final_file j) = text_eq i j
name_eq (temporary_file i) (temporary_file j) = text_eq i j
name_eq _ _ = false

abbrev pub Directory : Type 0
Directory = List (FileName × List ℕ)

unfoldable pub find_file : FileName → Directory → Option (List ℕ)
unfolding name_eq
find_file n [] = none
find_file n ((m, bytes) ∷ d) = if name_eq m n then some bytes else find_file n d

unfoldable pub remove_file : FileName → Directory → Directory
unfolding name_eq
remove_file n [] = []
remove_file n ((m, bytes) ∷ d) =
    let rest = remove_file n d in if name_eq m n then rest else (m, bytes) ∷ rest

unfoldable pub store_file : FileName → List ℕ → Directory → Directory
unfolding remove_file
store_file n bytes d = (n, bytes) ∷ remove_file n d

pub data JournalError : Type 0 where
  insecure journal_json : JournalError
  journal_io : IoKind → JournalError

-- How the operating system fails: a write that fails has written a prefix.
pub record Faults : Type 0 where
  pub creating : Option IoKind
  pub writing : Option (IoKind × ℕ)
  pub renaming : Option IoKind
  pub syncing : Option IoKind
  pub syncing_again : Option IoKind
  pub removing : Option IoKind

-- A step on the directory: the creation of a file or its contents, a removal, a renaming, or a sync.
pub data Op : Type 0 where
  stored : FileName → List ℕ → Op
  dropped : FileName → Op
  moved : FileName → FileName → Op
  synced : Op

unfoldable pub move_file : FileName → Option (List ℕ) → FileName → Directory → Directory
unfolding remove_file store_file
move_file m none n d = d
move_file m (some bytes) n d = store_file n bytes (remove_file m d)

unfoldable pub apply : Op → Directory → Directory
unfolding store_file remove_file find_file move_file
apply (stored n bytes) d = store_file n bytes d
apply (dropped n) d = remove_file n d
apply (moved m n) d = move_file m (find_file m d) n d
apply synced d = d

-- The directories that a crash may leave, at any time during the steps, if it may leave those of `left` at
-- first: a step may or may not have reached the disk, until a sync. `now` is the directory as it is seen.
unfoldable pub crash_states : List Directory → Directory → List Op → List Directory
unfolding apply
crash_states left now [] = left
crash_states left now (synced ∷ ops) = left ++ crash_states (now ∷ []) now ops
crash_states left now (op ∷ ops) =
    left ++ crash_states (left ++ map (apply op) left) (apply op now) ops

pub record Run (A : Type 0) : Type 0 where
  pub steps : List Op
  pub last : Directory
  pub answer : Result JournalError A

abbrev pub stopped : {A : Type 0} → Directory → JournalError → Run A
stopped d e = record { steps = []; last = d; answer = err e }

abbrev pub done : {A : Type 0} → A → Directory → Run A
done a d = record { steps = []; last = d; answer = ok a }

-- One step on the directory `d`, then the rest of the run.
abbrev pub step : {A : Type 0} → Op → Directory → (Directory → Run A) → Run A
step op d rest =
    let r = rest (apply op d) in record { steps = op ∷ r.steps; last = r.last; answer = r.answer }

-- `f()?` of an operation that changes no file.
abbrev pub checked : {A : Type 0} → Option IoKind → Directory → Run A → Run A
checked none d r = r
checked (some k) d r = stopped d (journal_io k)

-- `sync_directory(&self.root)?`
abbrev pub sync : {A : Type 0} → Option IoKind → Directory → (Directory → Run A) → Run A
sync e d rest = checked e d (step synced d rest)

unfoldable pub validate_id : Text → Bool
unfolding is_ascii_alphanumeric
validate_id id =
    not (
      is_empty id
      || ltb 128 (length id)
      || not (all (λ b. is_ascii_alphanumeric b || b == b'-') id))

abbrev pub max_file_bytes : ℕ
max_file_bytes = 1048576

abbrev pub is_present : Option (List ℕ) → Bool
is_present none = false
is_present (some bytes) = true

-- `write_all` of a file that was created, then the rest of the run.
unfoldable pub write_created :
    {A : Type 0} → Option (IoKind × ℕ) → FileName → List ℕ → Directory → (Directory → Run A) → Run A
unfolding apply
write_created none n bytes d rest = step (stored n bytes) d rest
write_created (some (k, written)) n bytes d rest =
    step (stored n (take written bytes)) d (λ e. stopped e (journal_io k))

-- `write_new_private_file`, then the rest of the run.
unfoldable pub write_new_private_file :
    {A : Type 0} → Faults → FileName → List ℕ → Directory → (Directory → Run A) → Run A
unfolding write_created apply find_file
write_new_private_file f n bytes d rest =
    if ltb max_file_bytes (length bytes)
    then stopped d insecure
    else if is_present (find_file n d)
    then stopped d (journal_io io_already_exists)
    else checked f.creating d (step (stored n []) d (λ e. write_created f.writing n bytes e rest))

-- The intent of an outcome that is known is removed, which fails if there is none.
unfoldable pub remove_intent :
    Faults → Bool → Text → Directory → (Directory → Run (Unit {0})) → Run (Unit {0})
unfolding apply find_file
remove_intent f true id d rest = rest d
remove_intent f false id d rest =
    if is_present (find_file (pending_file id) d)
    then checked f.removing d (step (dropped (pending_file id)) d rest)
    else stopped d (journal_io io_not_found)

-- What `record_outcome` does after the rename; `unknown` outcomes keep their intent.
unfoldable pub finish_outcome : Faults → Bool → Text → Directory → Run (Unit {0})
unfolding remove_intent apply
finish_outcome f unknown id d =
    sync f.syncing d
      (λ e. remove_intent f unknown id e (λ removed. sync f.syncing_again removed (done tt)))

unfoldable pub rename_outcome : Faults → Bool → Text → Directory → Run (Unit {0})
unfolding finish_outcome apply
rename_outcome f unknown id d =
    checked f.renaming d
      (step (moved (temporary_file id) (final_file id)) d (finish_outcome f unknown id))

-- `record_outcome`; `bytes` is the record as JSON, none if it cannot be written as JSON.
unfoldable pub record_outcome :
    Faults → Text → Text → Bool → Option (List ℕ) → Directory → Run (Unit {0})
unfolding validate_id write_new_private_file rename_outcome
record_outcome f intent_id outcome_id unknown none d =
    if validate_id intent_id && text_eq intent_id outcome_id
    then stopped d journal_json
    else stopped d insecure
record_outcome f intent_id outcome_id unknown (some bytes) d =
    if validate_id intent_id && text_eq intent_id outcome_id
    then write_new_private_file f (temporary_file intent_id) bytes d
        (rename_outcome f unknown intent_id)
    else stopped d insecure

-- `Path: Ord` of two names in one directory, on their bytes.
unfoldable pub text_leb : Text → Text → Bool
text_leb [] t = true
text_leb (a ∷ s) [] = false
text_leb (a ∷ s) (b ∷ t) = ltb a b || a == b && text_leb s t

abbrev pub final_name : Text → Text
final_name id = id ++ codes ".json"

unfoldable pub insert_sorted : Text → List Text → List Text
unfolding text_leb
insert_sorted id [] = id ∷ []
insert_sorted id (j ∷ ids) =
    let rest = insert_sorted id ids in
    if text_leb (final_name id) (final_name j) then id ∷ j ∷ ids else j ∷ rest

unfoldable pub sort_ids : List Text → List Text
unfolding insert_sorted
sort_ids [] = []
sort_ids (id ∷ ids) = insert_sorted id (sort_ids ids)

-- The outcomes whose intent is not pending in `all_files`.
unfoldable pub completed_ids : Directory → Directory → List Text
unfolding find_file
completed_ids all_files [] = []
completed_ids all_files ((final_file id, bytes) ∷ d) =
    let rest = completed_ids all_files d in
    if is_present (find_file (pending_file id) all_files) then rest else id ∷ rest
completed_ids all_files ((_, bytes) ∷ d) = completed_ids all_files d

unfoldable pub remove_outcomes :
    {A : Type 0} → Faults → List Text → Directory → (Directory → Run A) → Run A
unfolding apply
remove_outcomes f [] d rest = rest d
remove_outcomes f (id ∷ ids) d rest =
    checked f.removing d
      (step (dropped (final_file id)) d (λ removed. remove_outcomes f ids removed rest))

-- `prune_completed`, then the rest of the run.
unfoldable pub prune_completed : {A : Type 0} → Faults → ℕ → Directory → (Directory → Run A) → Run A
unfolding remove_outcomes sort_ids completed_ids
prune_completed f keep d rest =
    let ids = sort_ids (completed_ids d d) in
    remove_outcomes f (take (length ids - keep) ids) d rest

unfoldable pub write_intent : Faults → Text → Option (List ℕ) → Directory → Run (Unit {0})
unfolding write_new_private_file apply
write_intent f id none d = stopped d journal_json
write_intent f id (some bytes) d =
    write_new_private_file f (pending_file id) bytes d (λ written. sync f.syncing written (done tt))

-- `record_recoverable_intent`; `json` is the intent as JSON, none if it cannot be written as JSON.
unfoldable pub record_intent : Faults → Text → Option (List ℕ) → Directory → Run (Unit {0})
unfolding validate_id prune_completed write_intent
record_intent f id json d =
    if validate_id id then prune_completed f 100 d (write_intent f id json) else stopped d insecure
