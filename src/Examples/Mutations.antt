-- ===== src/Examples/Mutations.antt =====
-- Publications and withdrawals at concrete inputs.
use feather_mesh.Prelude.{
  ℕ, ◌+◌, ◌≤◌, true, ◌≡◌, ◌≢◌, refl, ◌∙◌, ◌⊎◌, none, some, arith, All, codes, ok, err, ok-injective,
}
use feather_mesh.Peer.Project.{serving_root, checked_asset_path}
use feather_mesh.Peer.Project.AssetPath.{IsInside, checked_asset_path-IsInside}
use feather_mesh.Peer.Mutation.{
  manifest_path, publish_reviewed, withdraw_with_precondition, published_response,
  withdrawn_response,
}
use feather_mesh.Peer.Mutation.Commit.{Refused}
use feather_mesh.Peer.Mutation.Outcome.{
  Published, Withdrew, publish_reviewed-outcome, withdraw-outcome,
}
use feather_mesh.Peer.Mutation.Serial.{
  Mutation, publication, apply, History, start, then_apply, IsCurrent, History-IsCurrent,
  reviewed_revision_once,
}
use feather_mesh.Peer.Error.{PeerError}
use feather_mesh.Peer.Token.{reference}
use feather_mesh.Peer.Manifest.{read_manifest_at}
use feather_mesh.Peer.Resolve.AfterWithdraw.{resolve-after_withdraw}
use feather_mesh.Peer.Resolve.{ResolvedProduct, resolve}
use feather_mesh.Peer.Resolve.AfterPublish.{IsElsewhere, IsAvailable, resolve-after_publish}
use feather_mesh.Examples.World.{
  fs, project, request, os, candidate, manifest, withdrawn_manifest, libraries, libraries-Codec,
}
use feather_mesh.Examples.Publishing.{
  publishing, prepared, answer, answered, withdrawal_answer, withdrawal_answered,
  serving_root-provider,
}

checked :
    checked_asset_path fs (codes "/p/s") (codes "/p/s") (codes "d")
    ≡ ok (codes "/p/s/d", codes "/p/s/d")
unfolding publishing
checked = refl

checked_asset_path-IsInside_example :
    IsInside fs (codes "/p/s") (codes "/p/s") (codes "d") (codes "/p/s/d") (codes "/p/s/d")
checked_asset_path-IsInside_example =
    checked_asset_path-IsInside fs (codes "/p/s") (codes "/p/s") (codes "d") (codes "/p/s/d")
      (codes "/p/s/d") checked

publish_reviewed-outcome_example :
    Refused fs (publish_reviewed libraries os fs fs project request (some 0) none)
    ⊎ Published libraries os fs fs project request
        (some 0)
        none
        (publish_reviewed libraries os fs fs project request (some 0) none)
publish_reviewed-outcome_example =
    publish_reviewed-outcome libraries os fs fs project request (some 0) none

withdraw-outcome_example :
    Refused answer.0 (
      withdraw_with_precondition libraries os answer.0 project
        (codes "obs")
        (codes "v1")
        (codes "bad")
        (some 1))
    ⊎ Withdrew libraries os answer.0 project (codes "obs") (codes "v1") (codes "bad") (some 1) (
        withdraw_with_precondition libraries os answer.0 project
          (codes "obs")
          (codes "v1")
          (codes "bad")
          (some 1))
withdraw-outcome_example =
    withdraw-outcome libraries os answer.0 project (codes "obs") (codes "v1") (codes "bad") (some 1)

rooted : serving_root answer.0 project ≡ ok (codes "/p/s")
unfolding publishing
rooted = refl

manifest_elsewhere : codes "/p/s/d" ≢ manifest_path (codes "/p/s")
unfolding publishing
manifest_elsewhere h = cc h

elsewhere : All (IsElsewhere fs (codes "/p/s") (manifest_path (codes "/p/s"))) candidate.assets
unfolding publishing
elsewhere = (λ c h e. manifest_elsewhere (ok-injective h ∙ e), tt)

resolve-after_publish_example :
    (r : ResolvedProduct) × IsAvailable libraries os fs fs project request
      (some 0)
      none
      true
      (λ n. none)
      (published_response candidate manifest)
      candidate
      r
resolve-after_publish_example =
    resolve-after_publish libraries os fs fs project request (some 0) none true (λ n. none)
      (published_response candidate manifest) candidate (codes "/p/s") prepared libraries-Codec
      answered rooted elsewhere

-- The same publication again, reviewed against the same revision.
abbrev again : Mutation
again = publication os fs request (some 0) none

reviewed_revision_once_example :
    Refused answer.0 (publish_reviewed libraries os fs answer.0 project request (some 0) none)
reviewed_revision_once_example =
    reviewed_revision_once libraries project (codes "/p/s") libraries-Codec 0 again again fs
      answer.0 (published_response candidate manifest) refl refl serving_root-provider answered
      start serving_root-provider (omega arith)

published-IsCurrent : IsCurrent libraries project (codes "/p/s") answer.0 1
unfolding publishing
published-IsCurrent = record { manifest = manifest; loaded = refl; numbered = refl }

-- The same publication again, in the state after the first.
history :
    History libraries project
      (codes "/p/s")
      1
      answer.0
      (apply libraries project (codes "/p/s") again answer.0).0
history = then_apply start again serving_root-provider refl

History-IsCurrent_example :
    (k : ℕ) × (k ≤ 1)
    × IsCurrent libraries project
        (codes "/p/s")
        (apply libraries project (codes "/p/s") again answer.0).0
        (1 + k)
History-IsCurrent_example =
    History-IsCurrent libraries project (codes "/p/s") libraries-Codec 1 history published-IsCurrent
      (omega arith)

loaded : read_manifest_at libraries answer.0 (manifest_path (codes "/p/s")) ≡ ok manifest
unfolding publishing
loaded = refl

still_rooted : serving_root withdrawal_answer.0 project ≡ ok (codes "/p/s")
unfolding publishing
still_rooted = refl

resolve-after_withdraw_example :
    resolve libraries withdrawal_answer.0 project
      (reference (codes "lab") (codes "obs"))
      (codes "v1")
      none
      true
      (λ n. none)
    ≡ err PeerError.withdrawn
resolve-after_withdraw_example =
    resolve-after_withdraw libraries os answer.0 project (codes "obs") (codes "v1") (codes "bad")
      (some 1) none true (λ n. none)
      (withdrawn_response (codes "obs") (codes "v1") withdrawn_manifest) (codes "/p/s") manifest
      libraries-Codec withdrawal_answered rooted still_rooted loaded refl
