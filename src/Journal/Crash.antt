-- ===== src/Journal/Crash.antt =====
-- What a crash may leave of `record_outcome`.
use feather_mesh.Prelude.{
  ℕ, ◌≡◌, refl, Bool, true, false, ◌||◌, ◌&&◌, Option, none, some, List, [], ◌∷◌, ◌++◌, map, arith,
  All, All-append, Text, text_eq, text_eq_refl, take, ltb, length, Bool-cases, inl, inr,
}
use feather_mesh.Peer.Error.{IoKind}
use feather_mesh.Journal.{
  pending_file, final_file, temporary_file, name_eq, Directory, find_file, remove_file, store_file,
  Op, stored, dropped, moved, move_file, apply, crash_states, Faults, Run, done, checked, sync,
  is_present, write_created, write_new_private_file, remove_intent, finish_outcome, rename_outcome,
  record_outcome, max_file_bytes, validate_id,
}
use feather_mesh.Journal.Runs.{find_file-remove_file, find_file-store_file}

-- The operation can be found again: its intent or its outcome is in the directory.
abbrev pub is_covered : Text → Directory → Bool
is_covered i d =
    is_present (find_file (pending_file i) d) || is_present (find_file (final_file i) d)

All-map :
    (P : Directory → Type 0) (f : Directory → Directory) (ds : List Directory)
    → ((d : Directory) → P d → P (f d))
    → All P ds
    → All P (map f ds)
All-map P f [] k h = tt
All-map P f (d ∷ ds) k h = (k d h.0, All-map P f ds k h.1)

All-implies :
    {P Q : Directory → Type 0} (ds : List Directory)
    → ((d : Directory) → P d → Q d)
    → All P ds
    → All Q ds
All-implies [] k h = tt
All-implies (d ∷ ds) k h = (k d h.0, All-implies ds k h.1)

module _ (i : Text) where
  abbrev Covered : Directory → Type 0
  Covered d = is_covered i d ≡ true

  abbrev HasOutcome : Directory → Type 0
  HasOutcome d = is_present (find_file (final_file i) d) ≡ true

  -- Every directory that a crash may leave, if only `d` may be left when the run begins.
  abbrev pub AllCovered : Directory → Run Unit → Type 0
  AllCovered d r = All (λ e. is_covered i e ≡ true) (crash_states (d ∷ []) d r.steps)

  -- Wherever a run begins, if the operation is covered in what a crash may leave by then.
  abbrev IsSafe : (Directory → Type 0) → Directory → Run Unit → Type 0
  IsSafe P d r = (left : List Directory) → All P left → All Covered (crash_states left d r.steps)

  HasOutcome-Covered : (d : Directory) → HasOutcome d → Covered d
  HasOutcome-Covered d h = ground (arith, h)

  grown :
      (P : Directory → Type 0) (op : Op) (left : List Directory)
      → ((d : Directory) → P d → P (apply op d))
      → All P left
      → All P (left ++ map (apply op) left)
  grown P op left stable h =
      All-append P left (map (apply op) left) h (All-map P (apply op) left stable h)

  store_temporary-Covered :
      (bytes : List ℕ) (d : Directory)
      → Covered d
      → Covered (apply (stored (temporary_file i) bytes) d)
  unfolding name_eq apply
  store_temporary-Covered bytes d h =
      rw
        (
          find_file-store_file (temporary_file i) (pending_file i) bytes d,
          find_file-store_file (temporary_file i) (final_file i) bytes d,
        )
        h

  final-HasOutcome :
      (bytes : List ℕ) (d : Directory) → HasOutcome (store_file (final_file i) bytes d)
  unfolding name_eq
  final-HasOutcome bytes d =
      rw (find_file-store_file (final_file i) (final_file i) bytes d, text_eq_refl i)

  move-Covered :
      (d : Directory) → Covered d → Covered (apply (moved (temporary_file i) (final_file i)) d)
  unfolding apply move_file
  move-Covered d h = go (find_file (temporary_file i) d)
    where
      go : (o : Option (List ℕ)) → Covered (move_file (temporary_file i) o (final_file i) d)
      go none = h
      go (some bytes) =
          HasOutcome-Covered (store_file (final_file i) bytes (remove_file (temporary_file i) d))
            (final-HasOutcome bytes (remove_file (temporary_file i) d))

  move-HasOutcome :
      (bytes : List ℕ) (d : Directory)
      → find_file (temporary_file i) d ≡ some bytes
      → HasOutcome (apply (moved (temporary_file i) (final_file i)) d)
  unfolding apply move_file
  move-HasOutcome bytes d h = rw h (final-HasOutcome bytes (remove_file (temporary_file i) d))

  drop_pending-HasOutcome :
      (d : Directory) → HasOutcome d → HasOutcome (apply (dropped (pending_file i)) d)
  unfolding apply name_eq
  drop_pending-HasOutcome d h = rw (find_file-remove_file (pending_file i) (final_file i) d) h

  checked-IsSafe :
      {P : Directory → Type 0} (e : Option IoKind) (d : Directory) (r : Run Unit)
      → ((d : Directory) → P d → Covered d)
      → IsSafe P d r
      → IsSafe P d (checked e d r)
  unfolding crash_states
  checked-IsSafe none d r c k left h = k left h
  checked-IsSafe (some e) d r c k left h = All-implies left c h

  -- After a sync only the directory as it is seen may be left.
  sync-IsSafe :
      (e : Option IoKind) (d : Directory) (rest : Directory → Run Unit)
      → Covered d
      → All Covered (crash_states (d ∷ []) d (rest d).steps)
      → IsSafe Covered d (sync e d rest)
  unfolding crash_states apply
  sync-IsSafe none d rest c k left h = All-append Covered left _ h k
  sync-IsSafe (some e) d rest c k left h = h

  last_sync-IsSafe :
      (f : Faults) (d : Directory)
      → HasOutcome d
      → IsSafe Covered d (sync f.syncing_again d (done tt))
  unfolding crash_states
  last_sync-IsSafe f d h =
      sync-IsSafe f.syncing_again d (done tt) (HasOutcome-Covered d h) (HasOutcome-Covered d h, tt)

  remove_intent-IsSafe :
      (f : Faults) (unknown : Bool) (d : Directory)
      → HasOutcome d
      → IsSafe HasOutcome d
          (remove_intent f unknown i d (λ removed. sync f.syncing_again removed (done tt)))
  unfolding remove_intent crash_states
  remove_intent-IsSafe f true d h left k =
      last_sync-IsSafe f d h left (All-implies left HasOutcome-Covered k)
  remove_intent-IsSafe f false d h left k =
      elim (Bool-cases (is_present (find_file (pending_file i) d))) [
        | inr absent ↦ rw absent (All-implies left HasOutcome-Covered k)
        | inl there ↦ rw there (
            checked-IsSafe f.removing d _ HasOutcome-Covered
              (λ left k. All-append Covered left _ (All-implies left HasOutcome-Covered k) (
                last_sync-IsSafe f (apply (dropped (pending_file i)) d)
                  (drop_pending-HasOutcome d h) _
                  (All-implies _ HasOutcome-Covered
                    (grown HasOutcome (dropped (pending_file i)) left drop_pending-HasOutcome k))))
              left k)
      ]

  finish_outcome-IsSafe :
      (f : Faults) (unknown : Bool) (d : Directory)
      → HasOutcome d
      → IsSafe Covered d (finish_outcome f unknown i d)
  unfolding finish_outcome
  finish_outcome-IsSafe f unknown d h =
      sync-IsSafe f.syncing d
        (λ e. remove_intent f unknown i e (λ removed. sync f.syncing_again removed (done tt)))
        (HasOutcome-Covered d h) (remove_intent-IsSafe f unknown d h (d ∷ []) (h, tt))

  rename_outcome-IsSafe :
      (f : Faults) (unknown : Bool) (bytes : List ℕ) (d : Directory)
      → find_file (temporary_file i) d ≡ some bytes
      → IsSafe Covered d (rename_outcome f unknown i d)
  unfolding rename_outcome crash_states
  rename_outcome-IsSafe f unknown bytes d found =
      checked-IsSafe f.renaming d _ (λ e c. c)
        (λ left h. All-append Covered left _ h (
          finish_outcome-IsSafe f unknown (apply (moved (temporary_file i) (final_file i)) d)
            (move-HasOutcome bytes d found) _
            (grown Covered (moved (temporary_file i) (final_file i)) left move-Covered h)))

  write_created-IsSafe :
      (w : Option (IoKind × ℕ)) (bytes : List ℕ) (d : Directory) (rest : Directory → Run Unit)
      → ((e : Directory) → find_file (temporary_file i) e ≡ some bytes → IsSafe Covered e (rest e))
      → IsSafe Covered d (write_created w (temporary_file i) bytes d rest)
  unfolding write_created crash_states apply name_eq
  write_created-IsSafe none bytes d rest k left h = All-append Covered left _ h (
      k (store_file (temporary_file i) bytes d)
        (rw (find_file-store_file (temporary_file i) (temporary_file i) bytes d, text_eq_refl i)
          refl)
        _ (grown Covered (stored (temporary_file i) bytes) left (store_temporary-Covered bytes) h))
  write_created-IsSafe (some (kind, written)) bytes d rest k left h = All-append Covered left _ h (
      grown Covered (stored (temporary_file i) (take written bytes)) left
        (store_temporary-Covered (take written bytes)) h)

  write_temporary-IsSafe :
      (f : Faults) (bytes : List ℕ) (d : Directory) (rest : Directory → Run Unit)
      → ((e : Directory) → find_file (temporary_file i) e ≡ some bytes → IsSafe Covered e (rest e))
      → IsSafe Covered d (write_new_private_file f (temporary_file i) bytes d rest)
  unfolding write_new_private_file crash_states
  write_temporary-IsSafe f bytes d rest k left h =
      elim (Bool-cases (ltb max_file_bytes (length bytes))) [
        | inl big ↦ rw big h
        | inr fits ↦ elim (Bool-cases (is_present (find_file (temporary_file i) d))) [
          | inl there ↦ rw (fits, there) h
          | inr absent ↦
              rw (fits, absent)
                (checked-IsSafe f.creating d _ (λ e c. c)
                  (λ left h. All-append Covered left _ h (
                    write_created-IsSafe f.writing bytes (apply (stored (temporary_file i) []) d)
                      rest k _
                      (grown Covered (stored (temporary_file i) []) left
                        (store_temporary-Covered []) h)))
                  left h)
        ]
      ]

  -- Whatever fails, and whenever a crash comes, which loses any of the steps since the last sync of the
  -- directory, an operation whose intent or outcome was on disk can be found again: its intent is still
  -- pending, or its outcome is there.
  pub record_outcome-covered :
      (f : Faults) (outcome_id : Text) (unknown : Bool) (json : Option (List ℕ)) (d : Directory)
      → is_covered i d ≡ true
      → AllCovered d (record_outcome f i outcome_id unknown json d)
  unfolding record_outcome crash_states
  record_outcome-covered f outcome_id unknown none d h =
      elim (Bool-cases (validate_id i && text_eq i outcome_id)) [
        | inl e ↦ rw e (h, tt)
        | inr e ↦ rw e (h, tt)
      ]
  record_outcome-covered f outcome_id unknown (some bytes) d h =
      elim (Bool-cases (validate_id i && text_eq i outcome_id)) [
        | inl e ↦ rw e (
            write_temporary-IsSafe f bytes d (rename_outcome f unknown i)
              (rename_outcome-IsSafe f unknown bytes) (d ∷ []) (h, tt))
        | inr e ↦ rw e (h, tt)
      ]
