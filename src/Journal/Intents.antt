-- ===== src/Journal/Intents.antt =====
-- `record_intent` when it succeeds.
use feather_mesh.Prelude.{
  ℕ, ◌≡◌, refl, sym, ◌-◌, ◌∙◌, false, Option, none, some, List, [], ◌∷◌, Text, text_eq,
  text_eq_refl, take, ltb, length, Option-cases, Bool-cases, inl, inr, ok,
}
use feather_mesh.Journal.{
  pending_file, final_file, name_eq, Directory, find_file, remove_file, store_file, Faults,
  is_present, dropped, apply, step, write_created, write_new_private_file, remove_outcomes,
  prune_completed, write_intent, record_intent, max_file_bytes, validate_id, sort_ids,
  completed_ids,
}
use feather_mesh.Journal.Runs.{find_file-remove_file, find_file-store_file, after_checked}

is_present-none : (o : Option (List ℕ)) → is_present o ≡ false → o ≡ none
is_present-none none h = refl
is_present-none (some b) h = cc h

module _ (i : Text) (bytes : List ℕ) where
  -- The intent is on disk, it was not there before, and every other intent is as it was.
  pub record IsPending (before after : Directory) : Type 0 where
    pub fresh : find_file (pending_file i) before ≡ none
    pub written : find_file (pending_file i) after ≡ some bytes
    pub others :
        (j : Text)
        → text_eq i j ≡ false
        → find_file (pending_file j) after ≡ find_file (pending_file j) before

  write_intent-IsPending :
      (f : Faults) (d : Directory)
      → (write_intent f i (some bytes) d).answer ≡ ok tt
      → IsPending d (write_intent f i (some bytes) d).last
  unfolding write_intent write_new_private_file write_created apply name_eq
  write_intent-IsPending f d h = elim (Bool-cases (ltb max_file_bytes (length bytes))) [
    | inl big ↦ cc (rw big at h)
    | inr fits ↦ elim (Bool-cases (is_present (find_file (pending_file i) d))) [
      | inl there ↦ cc (rw (fits, there) at h)
      | inr absent ↦ elim (Option-cases f.creating) [
        | inr (e, c) ↦ cc (rw (fits, absent, c) at h)
        | inl c ↦ elim (Option-cases f.writing) [
          | inr (e, w) ↦ cc (rw (fits, absent, c, w) at h)
          | inl w ↦ elim (Option-cases f.syncing) [
            | inr (e, s) ↦ cc (rw (fits, absent, c, w, s) at h)
            | inl s ↦
                let created = store_file (pending_file i) [] d in
                rw (fits, absent, c, w, s)
                  (record {
                    fresh = is_present-none (find_file (pending_file i) d) absent;
                    written = rw (
                      find_file-store_file (pending_file i) (pending_file i) bytes created,
                      text_eq_refl i,
                    );
                    others = λ j other. rw (
                      find_file-store_file (pending_file i) (pending_file j) bytes created,
                      find_file-store_file (pending_file i) (pending_file j) [] d,
                      other,
                    );
                  })
          ]
        ]
      ]
    ]
  ]

  remove_outcomes-IsPending :
      (f : Faults) (ids : List Text) (d : Directory)
      → (remove_outcomes f ids d (write_intent f i (some bytes))).answer ≡ ok tt
      → IsPending d (remove_outcomes f ids d (write_intent f i (some bytes))).last
  unfolding remove_outcomes apply name_eq
  remove_outcomes-IsPending f [] d h = write_intent-IsPending f d h
  remove_outcomes-IsPending f (id ∷ ids) d h =
      let removed = remove_file (final_file id) d in
      after_checked f.removing d
        (step (dropped (final_file id)) d
          (λ e. remove_outcomes f ids e (write_intent f i (some bytes))))
        (IsPending d)
        (λ k.
          let p = remove_outcomes-IsPending f ids removed k in
          record {
            fresh = sym (find_file-remove_file (final_file id) (pending_file i) d) ∙ p.fresh;
            written = p.written;
            others = λ j other.
                p.others j other ∙ find_file-remove_file (final_file id) (pending_file j) d;
          })
        h

  -- When an intent is recorded without an error, exactly its bytes are pending under its id, which no
  -- intent had before, and the intents of all other operations are kept.
  pub record_intent-IsPending :
      (f : Faults) (d : Directory)
      → (record_intent f i (some bytes) d).answer ≡ ok tt
      → IsPending d (record_intent f i (some bytes) d).last
  unfolding record_intent prune_completed
  record_intent-IsPending f d h = elim (Bool-cases (validate_id i)) [
    | inl e ↦
        let ids = sort_ids (completed_ids d d) in
        rw e (remove_outcomes-IsPending f (take (length ids - 100) ids) d (rw e at h))
    | inr e ↦ cc (rw e at h)
  ]
