-- ===== src/Journal/Settled.antt =====
-- `record_outcome` when it succeeds.
use feather_mesh.Prelude.{
  ℕ, ◌≡◌, refl, ap, ◌∙◌, Bool, true, false, ◌&&◌, Option, none, some, List, [], Text, text_eq,
  text_eq_refl, ltb, length, if◌then◌else◌, Bool-cases, inl, inr, ok,
}
use feather_mesh.Peer.Error.{IoKind}
use feather_mesh.Journal.{
  pending_file, final_file, temporary_file, name_eq, Directory, find_file, remove_file, store_file,
  Faults, is_present, write_created, write_new_private_file, remove_intent, finish_outcome,
  rename_outcome, stored, dropped, moved, move_file, apply, step, sync, done, record_outcome,
  max_file_bytes, validate_id,
}
use feather_mesh.Journal.Runs.{
  find_file-remove_file, find_file-store_file, after_checked, after_sync,
}

module _ (i : Text) (unknown : Bool) (bytes : List ℕ) where
  -- The outcome is on disk; the intent is gone, unless the outcome is unknown.
  pub record IsSettled (before after : Directory) : Type 0 where
    pub recorded : find_file (final_file i) after ≡ some bytes
    pub intent :
        find_file (pending_file i) after
        ≡ (if unknown then find_file (pending_file i) before else none)

  remove_intent-IsSettled :
      (f : Faults) (k : Bool) (d : Directory)
      → find_file (final_file i) d ≡ some bytes
      → (remove_intent f k i d (λ e. sync f.syncing_again e (done tt))).answer ≡ ok tt
      → (find_file
            (final_file i)
            (remove_intent f k i d (λ e. sync f.syncing_again e (done tt))).last
          ≡ some bytes)
        × (find_file
              (pending_file i)
              (remove_intent f k i d (λ e. sync f.syncing_again e (done tt))).last
            ≡ (if k then find_file (pending_file i) d else none))
  unfolding remove_intent apply name_eq
  remove_intent-IsSettled f true d final h =
      after_sync f.syncing_again d (done tt)
        (λ e.
          (find_file (final_file i) e ≡ some bytes)
          × (find_file (pending_file i) e ≡ find_file (pending_file i) d))
        (λ u. (final, refl)) h
  remove_intent-IsSettled f false d final h =
      elim (Bool-cases (is_present (find_file (pending_file i) d))) [
        | inr absent ↦ cc (rw absent at h)
        | inl there ↦ rw there (
            after_checked f.removing d
              (step (dropped (pending_file i)) d (λ e. sync f.syncing_again e (done tt)))
              (λ e.
                (find_file (final_file i) e ≡ some bytes) × (find_file (pending_file i) e ≡ none))
              (after_sync f.syncing_again (remove_file (pending_file i) d) (done tt)
                (λ e.
                  (find_file (final_file i) e ≡ some bytes) × (find_file (pending_file i) e ≡ none))
                (λ u. (
                  find_file-remove_file (pending_file i) (final_file i) d ∙ final,
                  rw (find_file-remove_file (pending_file i) (pending_file i) d, text_eq_refl i),
                )))
              (rw there at h))
      ]

  finish_outcome-IsSettled :
      (f : Faults) (before d : Directory)
      → find_file (final_file i) d ≡ some bytes
      → find_file (pending_file i) d ≡ find_file (pending_file i) before
      → (finish_outcome f unknown i d).answer ≡ ok tt
      → IsSettled before (finish_outcome f unknown i d).last
  unfolding finish_outcome
  finish_outcome-IsSettled f before d final pending =
      after_sync f.syncing d
        (λ e. remove_intent f unknown i e (λ removed. sync f.syncing_again removed (done tt)))
        (IsSettled before)
        (λ h.
          let (recorded, intent) = remove_intent-IsSettled f unknown d final h in
          record {
            recorded = recorded;
            intent = intent ∙ ap (λ (o : Option (List ℕ)). if unknown then o else none) pending;
          })

  move-final :
      (d : Directory)
      → find_file (temporary_file i) d ≡ some bytes
      → find_file (final_file i) (apply (moved (temporary_file i) (final_file i)) d) ≡ some bytes
  unfolding apply move_file name_eq
  move-final d found =
      rw
        (
          found,
          find_file-store_file (final_file i) (final_file i) bytes
              (remove_file (temporary_file i) d),
          text_eq_refl i,
        )
        refl

  move-pending :
      (d : Directory)
      → find_file (temporary_file i) d ≡ some bytes
      → find_file (pending_file i) (apply (moved (temporary_file i) (final_file i)) d)
        ≡ find_file (pending_file i) d
  unfolding apply move_file name_eq
  move-pending d found = rw found (
      find_file-store_file (final_file i) (pending_file i) bytes (remove_file (temporary_file i) d)
      ∙ find_file-remove_file (temporary_file i) (pending_file i) d)

  rename_outcome-IsSettled :
      (f : Faults) (before d : Directory)
      → find_file (temporary_file i) d ≡ some bytes
      → find_file (pending_file i) d ≡ find_file (pending_file i) before
      → (rename_outcome f unknown i d).answer ≡ ok tt
      → IsSettled before (rename_outcome f unknown i d).last
  unfolding rename_outcome
  rename_outcome-IsSettled f before d found pending =
      after_checked f.renaming d
        (step (moved (temporary_file i) (final_file i)) d (finish_outcome f unknown i))
        (IsSettled before)
        (finish_outcome-IsSettled f before (apply (moved (temporary_file i) (final_file i)) d)
          (move-final d found) (move-pending d found ∙ pending))

  write_created-IsSettled :
      (f : Faults) (w : Option (IoKind × ℕ)) (before d : Directory)
      → find_file (pending_file i) d ≡ find_file (pending_file i) before
      → (write_created w (temporary_file i) bytes d (rename_outcome f unknown i)).answer ≡ ok tt
      → IsSettled before
          (write_created w (temporary_file i) bytes d (rename_outcome f unknown i)).last
  unfolding write_created apply name_eq
  write_created-IsSettled f none before d pending h =
      rename_outcome-IsSettled f before (store_file (temporary_file i) bytes d)
        (rw (find_file-store_file (temporary_file i) (temporary_file i) bytes d, text_eq_refl i)
          refl)
        (find_file-store_file (temporary_file i) (pending_file i) bytes d ∙ pending) h
  write_created-IsSettled f (some (kind, written)) before d pending h = cc h

  write_temporary-IsSettled :
      (f : Faults) (d : Directory)
      → (write_new_private_file f (temporary_file i) bytes d (rename_outcome f unknown i)).answer
        ≡ ok tt
      → IsSettled d
          (write_new_private_file f (temporary_file i) bytes d (rename_outcome f unknown i)).last
  unfolding write_new_private_file apply name_eq
  write_temporary-IsSettled f d h = elim (Bool-cases (ltb max_file_bytes (length bytes))) [
    | inl big ↦ cc (rw big at h)
    | inr fits ↦ elim (Bool-cases (is_present (find_file (temporary_file i) d))) [
      | inl there ↦ cc (rw (fits, there) at h)
      | inr absent ↦
          rw (fits, absent)
            (after_checked f.creating d
              (step (stored (temporary_file i) []) d (λ e.
                write_created f.writing (temporary_file i) bytes e (rename_outcome f unknown i)))
              (IsSettled d)
              (write_created-IsSettled f f.writing d (store_file (temporary_file i) [] d)
                (find_file-store_file (temporary_file i) (pending_file i) [] d))
              (rw (fits, absent) at h))
    ]
  ]

  -- When an outcome is recorded without an error, exactly its bytes are in the outcome's file, and the
  -- intent is no longer pending, except that the intent of an unknown outcome stays.
  pub record_outcome-IsSettled :
      (f : Faults) (outcome_id : Text) (d : Directory)
      → (record_outcome f i outcome_id unknown (some bytes) d).answer ≡ ok tt
      → IsSettled d (record_outcome f i outcome_id unknown (some bytes) d).last
  unfolding record_outcome
  record_outcome-IsSettled f outcome_id d h =
      elim (Bool-cases (validate_id i && text_eq i outcome_id)) [
        | inl e ↦ rw e (write_temporary-IsSettled f d (rw e at h))
        | inr e ↦ cc (rw e at h)
      ]
