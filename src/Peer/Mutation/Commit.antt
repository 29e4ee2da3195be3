-- ===== src/Peer/Mutation/Commit.antt =====
-- The two ways in which `commit` of Peer.Mutation ends.
use feather_mesh.Prelude.{
  ℕ, ◌≤◌, ◌≡◌, ◌⊎◌, inl, inr, some, List, arith, Text, length, ok, err, Result-cases, Option-cases,
  Bool-cases, ltb,
}
use feather_mesh.Peer.Error.{PeerError, PeerResult, io, json, validation}
use feather_mesh.Peer.Types.{ServingManifest, PublicationResponse}
use feather_mesh.Peer.Env.{Fs, External, Os, replace_file, write_atomic_text}
use feather_mesh.Peer.Manifest.{write_manifest_atomic, max_manifest_bytes}
use feather_mesh.Peer.Mutation.{commit}

-- The mutation was refused: an error, and the file system as it was.
pub record Refused (fs : Fs) (answer : Fs × PeerResult PublicationResponse) : Type 0 where
  pub error : PeerError
  pub unchanged : answer.0 ≡ fs
  pub answered : answer.1 ≡ err error

module _ (x : External) (os : Os) (fs : Fs) (path : Text) (edit : PeerResult ServingManifest)
    (respond : ServingManifest → PublicationResponse) where
  pub record Written (answer : Fs × PeerResult PublicationResponse) : Type 0 where
    pub manifest : ServingManifest
    pub bytes : List ℕ
    pub edited : edit ≡ ok manifest
    pub encoded : x.encode_manifest manifest ≡ some bytes
    pub bounded : length bytes ≤ max_manifest_bytes
    pub stored : answer.0 ≡ replace_file fs path bytes
    pub answered : answer.1 ≡ ok (respond manifest)

  pub commit-outcome :
      Refused fs (commit x os fs path edit respond) ⊎ Written (commit x os fs path edit respond)
  unfolding commit write_manifest_atomic write_atomic_text
  commit-outcome = elim (Result-cases edit) [
    | inr (e, h) ↦ inl (record { error = e; unchanged = rw h; answered = rw h })
    | inl (m, h) ↦ elim (Option-cases (x.encode_manifest m)) [
      | inl n ↦ inl (record { error = json; unchanged = rw (h, n); answered = rw (h, n) })
      | inr (bytes, n) ↦ elim (Bool-cases (ltb max_manifest_bytes (length bytes))) [
        | inl big ↦ inl (record {
          error = validation "manifest";
          unchanged = rw (h, n, big);
          answered = rw (h, n, big);
        })
        | inr fits ↦ elim (Option-cases os.write_error) [
          | inl w ↦ inr (record {
            manifest = m;
            bytes = bytes;
            edited = h;
            encoded = n;
            bounded = ground arith;
            stored = rw (h, n, fits, w);
            answered = rw (h, n, fits, w);
          })
          | inr (k, w) ↦ inl (record {
            error = io k;
            unchanged = rw (h, n, fits, w);
            answered = rw (h, n, fits, w);
          })
        ]
      ]
    ]
  ]
