-- ===== src/Examples/Listings.antt =====
-- A listing and a refresh of the project after its publication.
use feather_mesh.Prelude.{
  ℕ, ◌≤◌, true, false, ◌≡◌, refl, sym, ap, subst, ◌⊎◌, none, some, List, [], ◌∷◌, text_eq, codes,
  ok, if◌then◌else◌, String, Bool, ◌∙◌,
}
use mathlib.Core.Logic.{ite}
use mathlib.Core.Bool.{true≢false}
use text.Mathlib.Text.{◌==◌}
use text.Mathlib.TextEquality.{eq_iff}
use native.Mathlib.Decide.{ℕ_discrete}
use feather_mesh.Peer.Project.{route_for_namespace}
use feather_mesh.Peer.Listing.{
  Listing, Cache, CacheSnapshot, covered, listed_namespaces, peer_namespaces, add_coverage,
  add_manifest, add_bytes, exceeds, list_route, list_namespaces, list_registered_with_coverage,
  refresh, max_catalog_input_bytes,
}
use feather_mesh.Peer.Listing.Coverage.{IsListing, list_registered_with_coverage-IsListing}
use feather_mesh.Peer.Listing.Bytes.{total_length, list_registered_with_coverage-bounded}
use feather_mesh.Peer.Listing.Cached.{CacheCodec, IsRefused, IsCached, refresh-outcome}
use feather_mesh.Examples.World.{project, os, candidate, libraries}
use feather_mesh.Examples.Publishing.{publishing, answer}

abbrev listing : Listing
listing = record {
  input_bytes = 1;
  entries =
      (codes "lab", record { id = codes "obs"; name = codes "n"; versions = candidate ∷ [] }, 1)
      ∷ [];
  coverage = covered (codes "lab") (codes "t") 1 ∷ [];
}

listed : list_registered_with_coverage libraries answer.0 project (codes "t") ≡ ok listing
unfolding publishing peer_namespaces listed_namespaces add_coverage add_manifest add_bytes exceeds
    list_route list_namespaces list_registered_with_coverage route_for_namespace
listed = refl

list_registered_with_coverage-IsListing_example : IsListing (listed_namespaces project) listing
list_registered_with_coverage-IsListing_example =
    list_registered_with_coverage-IsListing libraries answer.0 project (codes "t") listing listed

list_registered_with_coverage-bounded_example :
    total_length answer.0 project listing.coverage ≤ max_catalog_input_bytes
list_registered_with_coverage-bounded_example =
    list_registered_with_coverage-bounded libraries answer.0 project (codes "t") listing listed

-- The snapshot of the project after its publication, and a codec that knows only this one.
abbrev snapshot : CacheSnapshot
snapshot = record {
  schema_version = 1;
  project_namespace = codes "lab";
  peers =
      record { namespace = codes "lab"; revision = some 1; refreshed_at = codes "t"; error = none }
      ∷ [];
}

String-Dec : (s t : String) (b : Bool) → (s == t) ≡ b → Dec (s ≡ t)
String-Dec s t true h = yes ((eq_iff s t).0 h)
String-Dec s t false h = no (λ e. true≢false (sym ((eq_iff s t).1 e) ∙ h))

String-discrete : Discrete String
String-discrete s t = String-Dec s t ((s == t)) refl

unfoldable CacheSnapshot-discrete : Discrete CacheSnapshot
CacheSnapshot-discrete = hlevel (ℕ_discrete, String-discrete)

abbrev cache : Cache
cache = record {
  path = codes "/c";
  encode = λ s. ite (CacheSnapshot-discrete s snapshot) (some (5 ∷ [])) none;
  decode = λ b. if text_eq b (5 ∷ []) then some snapshot else none;
}

codec_at :
    (s : CacheSnapshot) (bytes : List ℕ) (d : Dec (s ≡ snapshot))
    → ite d (some (5 ∷ [])) none ≡ some bytes
    → cache.decode bytes ≡ some s
unfolding text_eq
codec_at s bytes (yes e) h =
    let same : 5 ∷ [] ≡ bytes = cc in subst (λ b. cache.decode b ≡ some s) same (ap some (sym e))
codec_at s bytes (no n) h = cc

cache-CacheCodec : CacheCodec cache
cache-CacheCodec s bytes h = codec_at s bytes (CacheSnapshot-discrete s snapshot) h

refresh-outcome_example :
    IsRefused answer.0 (refresh libraries cache os answer.0 project)
    ⊎ IsCached libraries cache os answer.0 project (refresh libraries cache os answer.0 project)
refresh-outcome_example = refresh-outcome libraries cache os answer.0 project cache-CacheCodec
