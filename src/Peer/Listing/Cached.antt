-- ===== src/Peer/Listing/Cached.antt =====
-- `refresh`, and `cache_status` after it.
use feather_mesh.Prelude.{
  ℕ, ◌≡◌, ◌⊎◌, inl, inr, some, List, text_eq_refl, ok, err, Result-cases, Option-cases,
}
use feather_mesh.Peer.Error.{PeerError, PeerResult, io, json}
use feather_mesh.Peer.Types.{Project}
use feather_mesh.Peer.Env.{Fs, External, Os, replace_file, write_atomic_text}
use feather_mesh.Peer.Listing.{
  Cache, CacheSnapshot, observe, store_snapshot, refresh, read_cache, absent_cache, cache_status,
}

-- serde_json reads back the cache that it has written.
abbrev pub CacheCodec : Cache → Type 0
CacheCodec cache =
    (snapshot : CacheSnapshot) (bytes : List ℕ)
    → cache.encode snapshot ≡ some bytes
    → cache.decode bytes ≡ some snapshot

-- A refresh that fails changes no file.
pub record IsRefused (fs : Fs) (answer : Fs × PeerResult CacheSnapshot) : Type 0 where
  pub error : PeerError
  pub unchanged : answer.0 ≡ fs
  pub answered : answer.1 ≡ err error

-- A refresh that succeeds answers what it has observed, and the cache holds that.
pub record IsCached (x : External) (cache : Cache) (os : Os) (fs : Fs) (project : Project)
    (answer : Fs × PeerResult CacheSnapshot) : Type 0 where
  pub snapshot : CacheSnapshot
  pub observed : observe x fs project os.now ≡ ok snapshot
  pub answered : answer.1 ≡ ok snapshot
  pub cached : cache_status cache answer.0 ≡ ok (some snapshot)

cache_status-replace :
    (cache : Cache) (fs : Fs) (snapshot : CacheSnapshot) (bytes : List ℕ)
    → cache.decode bytes ≡ some snapshot
    → cache_status cache (replace_file fs cache.path bytes) ≡ ok (some snapshot)
unfolding cache_status read_cache absent_cache replace_file
cache_status-replace cache fs snapshot bytes h = rw (text_eq_refl cache.path, h)

-- A refresh fails and changes no file, or it answers what it has observed and a later reader of the
-- cache gets the same, if serde_json reads back the cache that it has written.
pub refresh-outcome :
    (x : External) (cache : Cache) (os : Os) (fs : Fs) (project : Project)
    → CacheCodec cache
    → IsRefused fs (refresh x cache os fs project)
      ⊎ IsCached x cache os fs project (refresh x cache os fs project)
unfolding refresh store_snapshot write_atomic_text
refresh-outcome x cache os fs project codec = elim (Result-cases (observe x fs project os.now)) [
  | inr (e, h) ↦ inl (record { error = e; unchanged = rw h; answered = rw h })
  | inl (snapshot, h) ↦ elim (Option-cases (cache.encode snapshot)) [
    | inl n ↦ inl (record {
      error = json;
      unchanged = rw (h, store_snapshot, n);
      answered = rw (h, store_snapshot, n);
    })
    | inr (bytes, n) ↦ elim (Option-cases os.write_error) [
      | inr (k, w) ↦ inl (record {
        error = io k;
        unchanged = rw (h, store_snapshot, n, w);
        answered = rw (h, store_snapshot, n, w);
      })
      | inl w ↦ inr (record {
        snapshot = snapshot;
        observed = h;
        answered = rw (h, store_snapshot, n, w);
        cached =
            rw (h, store_snapshot, n, w)
              (cache_status-replace cache fs snapshot bytes (codec snapshot bytes n));
      })
    ]
  ]
]
