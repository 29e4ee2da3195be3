-- ===== src/Peer/Manifest/Reading.antt =====
-- `read_manifest_at` and `read_or_empty_manifest`, on any file and on one that was just replaced.
use feather_mesh.Prelude.{
  ℕ, suc, zero, ◌+◌, ◌≤◌, ◌≡◌, refl, ap, subst, true, some, List, [], ◌∷◌, arith, Text,
  text_eq_refl, length, take, ok, err, guard, >>-eq-ok, >>=-eq-ok, guard-eq-ok, ok-injective, ◌==◌,
  ==_iff, ok_or,
}
use feather_mesh.Peer.Error.{PeerResult, validation, not_found, json}
use feather_mesh.Peer.Token.{validate_namespace}
use feather_mesh.Peer.Types.{ServingManifest}
use feather_mesh.Peer.Env.{Fs, External, replace_file, exists, read_bounded}
use feather_mesh.Peer.Manifest.{
  parse_manifest, read_manifest_at, read_or_empty_manifest, empty_if_missing, empty_manifest,
  max_manifest_bytes,
}

-- serde_json reads back what it has written.
abbrev pub Codec : External → Type 0
Codec x =
    (m : ServingManifest) (bytes : List ℕ)
    → x.encode_manifest m ≡ some bytes
    → x.decode_manifest bytes ≡ some m

pub record IsManifest (m : ServingManifest) : Type 0 where
  pub schema : m.schema_version ≡ 1
  pub named : validate_namespace m.namespace ≡ ok tt

take-all {ℓ} : {A : Type ℓ} (n : ℕ) (xs : List A) → length xs ≤ n → take n xs ≡ xs
take-all zero [] h = refl
take-all zero (x ∷ xs) h = absurd (omega arith)
take-all (suc n) [] h = refl
take-all (suc n) (x ∷ xs) h = ap (λ t. x ∷ t) (take-all n xs (omega arith))

read_bounded-replace :
    (fs : Fs) (path : Text) (bytes : List ℕ) (limit : ℕ)
    → length bytes ≤ limit
    → read_bounded (replace_file fs path bytes) path limit ≡ ok bytes
unfolding read_bounded replace_file
read_bounded-replace fs path bytes limit h =
    rw (text_eq_refl path, take-all (limit + 1) bytes (omega arith)) (ground arith)

exists-replace :
    (fs : Fs) (path : Text) (bytes : List ℕ) → exists (replace_file fs path bytes) path ≡ true
unfolding exists replace_file
exists-replace fs path bytes = rw (exists, text_eq_refl path)

parse_manifest-ok :
    (x : External) (m : ServingManifest) (bytes : List ℕ)
    → IsManifest m
    → x.decode_manifest bytes ≡ some m
    → parse_manifest x bytes ≡ ok m
unfolding parse_manifest
parse_manifest-ok x m bytes v h = rw (h, (==_iff m.schema_version 1).1 v.schema, v.named)

-- A manifest that has just replaced the file is the one that is read.
pub read_manifest-replace :
    (x : External) (fs : Fs) (path : Text) (m : ServingManifest) (bytes : List ℕ)
    → IsManifest m
    → x.decode_manifest bytes ≡ some m
    → length bytes ≤ max_manifest_bytes
    → read_manifest_at x (replace_file fs path bytes) path ≡ ok m
unfolding read_manifest_at
read_manifest-replace x fs path m bytes v decoded fits =
    rw (exists-replace fs path bytes, read_bounded-replace fs path bytes max_manifest_bytes fits)
      (parse_manifest-ok x m bytes v decoded)

parse_manifest-IsManifest :
    (x : External) (m : ServingManifest) (bytes : List ℕ)
    → parse_manifest x bytes ≡ ok m
    → IsManifest m
unfolding parse_manifest
parse_manifest-IsManifest x m bytes h =
    let (n, a, h1) = >>=-eq-ok (ok_or (x.decode_manifest bytes) json) _ m h in
    let (b, h2) =
      >>-eq-ok (guard (n.schema_version == 1) (validation "manifest.schema_version")) _ m h1 in
    let (c, h3) = >>-eq-ok (validate_namespace n.namespace) _ m h2 in
    subst IsManifest (ok-injective h3) (record {
      schema =
          (==_iff n.schema_version 1).0
            (guard-eq-ok (n.schema_version == 1) (validation "manifest.schema_version") b);
      named = c;
    })

pub read_manifest_at-IsManifest :
    (x : External) (fs : Fs) (path : Text) (m : ServingManifest)
    → read_manifest_at x fs path ≡ ok m
    → IsManifest m
unfolding read_manifest_at
read_manifest_at-IsManifest x fs path m h =
    let (a, h1) = >>-eq-ok (guard (exists fs path) not_found) _ m h in
    let (bytes, b, h2) = >>=-eq-ok (read_bounded fs path max_manifest_bytes) _ m h1 in
    parse_manifest-IsManifest x m bytes h2

empty_if_missing-IsManifest :
    (ns now : Text) (r : PeerResult ServingManifest) (m : ServingManifest)
    → validate_namespace ns ≡ ok tt
    → ((n : ServingManifest) → r ≡ ok n → IsManifest n)
    → empty_if_missing ns now r ≡ ok m
    → IsManifest m
unfolding empty_if_missing
empty_if_missing-IsManifest ns now (err not_found) m v k h =
    subst IsManifest (ok-injective h) (unfold empty_manifest in record { schema = refl; named = v })
empty_if_missing-IsManifest ns now (ok n) m v k h = k m h
empty_if_missing-IsManifest ns now (err _) m v k h = cc

pub read_or_empty-IsManifest :
    (x : External) (fs : Fs) (path ns now : Text) (m : ServingManifest)
    → validate_namespace ns ≡ ok tt
    → read_or_empty_manifest x fs path ns now ≡ ok m
    → IsManifest m
unfolding read_or_empty_manifest
read_or_empty-IsManifest x fs path ns now m v h =
    empty_if_missing-IsManifest ns now (read_manifest_at x fs path) m v
      (read_manifest_at-IsManifest x fs path) h
