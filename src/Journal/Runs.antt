-- ===== src/Journal/Runs.antt =====
-- What a step leaves in the directory, and when a run goes on.
use feather_mesh.Prelude.{
  ℕ, ◌≡◌, true, Option, none, some, List, [], ◌∷◌, arith, text_eq_iff, if◌then◌else◌, ok,
}
use feather_mesh.Peer.Error.{IoKind}
use feather_mesh.Journal.{
  FileName, pending_file, final_file, temporary_file, name_eq, Directory, find_file, remove_file,
  store_file, apply, Run, checked, sync,
}

name_eq_iff : (m n : FileName) → name_eq m n ≡ true → m ≡ n
unfolding name_eq
name_eq_iff (pending_file i) (pending_file j) h = ground (arith, text_eq_iff i j)
name_eq_iff (final_file i) (final_file j) h = ground (arith, text_eq_iff i j)
name_eq_iff (temporary_file i) (temporary_file j) h = ground (arith, text_eq_iff i j)
name_eq_iff _ _ h = cc h

pub find_file-remove_file :
    (n m : FileName) (d : Directory)
    → find_file m (remove_file n d) ≡ (if name_eq n m then none else find_file m d)
unfolding find_file remove_file
find_file-remove_file n m [] = ground arith
find_file-remove_file n m ((k, bytes) ∷ d) =
    ground (arith, find_file-remove_file n m d, name_eq_iff k n, name_eq_iff k m, name_eq_iff n m)

pub find_file-store_file :
    (n m : FileName) (bytes : List ℕ) (d : Directory)
    → find_file m (store_file n bytes d) ≡ (if name_eq n m then some bytes else find_file m d)
unfolding store_file find_file
find_file-store_file n m bytes d = ground (arith, find_file-remove_file n m d)

pub after_checked :
    (e : Option IoKind) (d : Directory) (r : Run Unit) (P : Directory → Type 0)
    → (r.answer ≡ ok tt → P r.last)
    → (checked e d r).answer ≡ ok tt
    → P (checked e d r).last
after_checked none d r P k h = k h
after_checked (some e) d r P k h = cc h

pub after_sync :
    (e : Option IoKind) (d : Directory) (rest : Directory → Run Unit) (P : Directory → Type 0)
    → ((rest d).answer ≡ ok tt → P (rest d).last)
    → (sync e d rest).answer ≡ ok tt
    → P (sync e d rest).last
unfolding apply
after_sync none d rest P k h = k h
after_sync (some e) d rest P k h = cc h
