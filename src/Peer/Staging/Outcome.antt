-- ===== src/Peer/Staging/Outcome.antt =====
-- Every outcome of `stage` of peer_access.rs.
use feather_mesh.Prelude.{ℕ, ◌≡◌, none, some, List, ok, err}
use feather_mesh.Peer.Error.{IoKind, PeerError, PeerResult, io}
use feather_mesh.Peer.Resolve.{ResolvedAsset}
use feather_mesh.Peer.Staging.{StageReceipt, Node, file, Slots, StageOs, copy_assets}
use feather_mesh.Peer.Staging.Copies.{AreCopied}

-- The copied assets stand under the output's name, and their receipt beside them.
pub record IsInPlace (os : StageOs) (assets : List ResolvedAsset) (receipt : StageReceipt)
    (before s : Slots) : Type 0 where
  pub copies : Node
  pub bytes : List ℕ
  pub copied : (copy_assets os assets before).1 ≡ ok copies
  pub complete : AreCopied os assets copies
  pub encoded : os.encode_receipt receipt ≡ some bytes
  pub output : s.output ≡ some copies
  pub written : s.receipt ≡ some (file bytes)

pub data IsStaged (os : StageOs) (assets : List ResolvedAsset) (receipt : StageReceipt)
    (before : Slots) : Slots × PeerResult StageReceipt → Type 0 where
  committed :
      (s : Slots)
      → IsInPlace os assets receipt before s
      → s.backup ≡ none
      → IsStaged os assets receipt before (s, ok receipt)
  followup :
      (s : Slots) (k : IoKind)
      → IsInPlace os assets receipt before s
      → IsStaged os assets receipt before (s, err (io k))
  kept :
      (s : Slots) (e : PeerError)
      → s.output ≡ before.output
      → s.receipt ≡ before.receipt
      → IsStaged os assets receipt before (s, err e)
  unrestored :
      (s : Slots) (k : IoKind)
      → s.backup ≡ before.output
      → s.receipt ≡ before.receipt
      → IsStaged os assets receipt before (s, err (io k))
