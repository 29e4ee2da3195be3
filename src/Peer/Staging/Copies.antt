-- ===== src/Peer/Staging/Copies.antt =====
-- The copies that `stage` of peer_access.rs makes of a product's assets.
use feather_mesh.Prelude.{
  lookup, lookup-insert, text_eq, text_eq_refl, Bool-cases, inl, inr, ok-injective, ◌>>=◌, ℕ, ◌≡◌,
  refl, sym, ◌∙◌, true, Option, none, some, List, [], ◌∷◌, Text, Result, ok, err, All, insert,
}
use feather_mesh.Peer.Error.{IoKind, PeerResult, io}
use feather_mesh.Peer.Env.{lift_io}
use feather_mesh.Peer.Resolve.{ResolvedAsset}
use feather_mesh.Peer.Staging.{
  Node, file, directory, Slots, StageOs, is_entry, put_copy, copy_files, copy_into, copy_assets,
}

-- Every id of several assets is the name of a file; the id of an only asset is not looked at.
abbrev pub HavePlainIds : List ResolvedAsset → Type 0
HavePlainIds (a ∷ []) = Unit
HavePlainIds assets = All (λ a. is_entry a.id ≡ true) assets

copy_files-same :
    (os : StageOs) (assets : List ResolvedAsset) (there : Slots × List (Text × List ℕ))
    → All (λ a. is_entry a.id ≡ true) assets
    → (copy_files os assets there).0 ≡ there.0
unfolding copy_files put_copy
copy_files-same os [] there h = refl
copy_files-same os (a ∷ assets) there h =
    go (os.copy a) (λ bytes. copy_files-same os assets (there.0, insert a.id bytes there.1) h.1)
  where
    go :
        (r : Result IoKind (List ℕ))
        → ((bytes : List ℕ)
            → (copy_files os assets (there.0, insert a.id bytes there.1)).0 ≡ there.0)
        → (elim r as (λ x. Slots × PeerResult Node) [
          | err k ↦ (there.0, err (io k))
          | ok bytes ↦ copy_files os assets (put_copy os a bytes there)
        ]).0
          ≡ there.0
    go (err k) rest = refl
    go (ok bytes) rest = rw h.0 (rest bytes)

copy_into-same :
    (os : StageOs) (assets : List ResolvedAsset) (s : Slots) (e : Option IoKind)
    → All (λ a. is_entry a.id ≡ true) assets
    → (copy_into os assets s e).0 ≡ s
copy_into-same os assets s none h = copy_files-same os assets (s, []) h
copy_into-same os assets s (some k) h = refl

pub copy_assets-same :
    (os : StageOs) (assets : List ResolvedAsset) (s : Slots)
    → HavePlainIds assets
    → (copy_assets os assets s).0 ≡ s
unfolding copy_assets
copy_assets-same os [] s h = copy_into-same os [] s os.create_error h
copy_assets-same os (a ∷ []) s h = refl
copy_assets-same os (a ∷ b ∷ assets) s h = copy_into-same os (a ∷ b ∷ assets) s os.create_error h

-- The directory has a file of this name.
abbrev pub HasEntry : List (Text × List ℕ) → Text → Type 0
HasEntry files id = (bytes : List ℕ) × (lookup id files ≡ some bytes)

insert-HasEntry :
    (files : List (Text × List ℕ)) (k id : Text) (bytes : List ℕ)
    → HasEntry files id
    → HasEntry (insert k bytes files) id
insert-HasEntry files k id bytes (old, h) = elim (Bool-cases (text_eq k id)) [
  | inl same ↦ (bytes, lookup-insert k id bytes files ∙ rw same refl)
  | inr other ↦ (old, lookup-insert k id bytes files ∙ rw other h)
]

insert-HasEntry_new :
    (files : List (Text × List ℕ)) (k : Text) (bytes : List ℕ) → HasEntry (insert k bytes files) k
insert-HasEntry_new files k bytes =
    (bytes, lookup-insert k k bytes files ∙ rw (text_eq_refl k) refl)

-- The directory to which the copies lead, with all that was there and one entry for each of them.
record IsFilled (assets : List ResolvedAsset) (before : List (Text × List ℕ)) (node : Node)
    : Type 0 where
  files : List (Text × List ℕ)
  filled : node ≡ directory files
  kept : (id : Text) → HasEntry before id → HasEntry files id
  entries : All (λ a. HasEntry files a.id) assets

copy_files-IsFilled :
    (os : StageOs) (assets : List ResolvedAsset) (s : Slots) (before : List (Text × List ℕ))
    (node : Node)
    → All (λ a. is_entry a.id ≡ true) assets
    → (copy_files os assets (s, before)).1 ≡ ok node
    → IsFilled assets before node
unfolding copy_files put_copy
copy_files-IsFilled os [] s before node h p = record {
  files = before;
  filled = sym (ok-injective p);
  kept = λ id k. k;
  entries = tt;
}
copy_files-IsFilled os (a ∷ assets) s before node h p =
    go (os.copy a) (λ bytes. copy_files-IsFilled os assets s (insert a.id bytes before) node h.1) p
  where
    go :
        (r : Result IoKind (List ℕ))
        → ((bytes : List ℕ)
            → (copy_files os assets (s, insert a.id bytes before)).1 ≡ ok node
            → IsFilled assets (insert a.id bytes before) node)
        → (elim r as (λ x. Slots × PeerResult Node) [
          | err k ↦ (s, err (io k))
          | ok bytes ↦ copy_files os assets (put_copy os a bytes (s, before))
        ]).1
          ≡ ok node
        → IsFilled (a ∷ assets) before node
    go (err k) rest p = cc p
    go (ok bytes) rest p =
        let f = rest bytes (rw h.0 at p) in
        record {
          files = f.files;
          filled = f.filled;
          kept = λ id k. f.kept id (insert-HasEntry before a.id id bytes k);
          entries = (f.kept a.id (insert-HasEntry_new before a.id bytes), f.entries);
        }

-- The only asset's bytes, or a directory with a file under each asset's id.
abbrev pub AreCopied : StageOs → List ResolvedAsset → Node → Type 0
AreCopied os (a ∷ []) node = (bytes : List ℕ) × (os.copy a ≡ ok bytes) × (node ≡ file bytes)
AreCopied os assets node =
    (files : List (Text × List ℕ)) × (node ≡ directory files)
    × All (λ a. HasEntry files a.id) assets

copy_into-AreCopied :
    (os : StageOs) (assets : List ResolvedAsset) (s : Slots) (node : Node) (e : Option IoKind)
    → All (λ a. is_entry a.id ≡ true) assets
    → (copy_into os assets s e).1 ≡ ok node
    → (files : List (Text × List ℕ)) × (node ≡ directory files)
      × All (λ a. HasEntry files a.id) assets
copy_into-AreCopied os assets s node none h p =
    let f = copy_files-IsFilled os assets s [] node h p in (f.files, f.filled, f.entries)
copy_into-AreCopied os assets s node (some k) h p = cc p

copied_file :
    (r : Result IoKind (List ℕ)) (node : Node)
    → (lift_io r >>= λ bytes. ok (file bytes)) ≡ ok node
    → (bytes : List ℕ) × (r ≡ ok bytes) × (node ≡ file bytes)
copied_file (ok bytes) node p = (bytes, refl, sym (ok-injective p))
copied_file (err k) node p = cc p

pub copy_assets-AreCopied :
    (os : StageOs) (assets : List ResolvedAsset) (s : Slots) (node : Node)
    → HavePlainIds assets
    → (copy_assets os assets s).1 ≡ ok node
    → AreCopied os assets node
unfolding copy_assets
copy_assets-AreCopied os [] s node h p = copy_into-AreCopied os [] s node os.create_error h p
copy_assets-AreCopied os (a ∷ []) s node h p = copied_file (os.copy a) node p
copy_assets-AreCopied os (a ∷ b ∷ assets) s node h p =
    copy_into-AreCopied os (a ∷ b ∷ assets) s node os.create_error h p
