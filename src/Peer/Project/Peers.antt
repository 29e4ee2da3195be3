-- ===== src/Peer/Project/Peers.antt =====
-- `validate_project_config` and the lookup of peers by namespace.
use feather_mesh.Prelude.{
  ◌≡◌, ◌==◌, is_empty, for_each, true, false, not, some, List, [], ◌∷◌, arith, All, Text, text_eq,
  text_eq_iff, text_eq_refl, contains, find, ok, guard, >>-eq-ok, guard-eq-ok, if◌then◌else◌,
}
use feather_mesh.Std.FilePath.{is_absolute}
use feather_mesh.Peer.Error.{validation}
use feather_mesh.Peer.Token.{non_blank, validate_namespace, validate_relative_path}
use feather_mesh.Peer.Types.{PeerRouteConfig, ProjectConfig}
use feather_mesh.Peer.Project.{check_peers, check_serving_dir, validate_project_config}

check_peers-first :
    (own : Text) (p : PeerRouteConfig) (ps : List PeerRouteConfig) (namespaces aliases : List Text)
    → check_peers own (p ∷ ps) namespaces aliases ≡ ok tt
    → (text_eq p.namespace own ≡ false)
      × (contains p.namespace namespaces ≡ false)
      × (check_peers own ps (p.namespace ∷ namespaces) (p.alias ∷ aliases) ≡ ok tt)
unfolding check_peers
check_peers-first own p ps namespaces aliases h =
    let (_, h1) = >>-eq-ok (non_blank "peers.alias" p.alias) _ tt h in
    let (_, h2) = >>-eq-ok (validate_namespace p.namespace) _ tt h1 in
    let (a, h3) =
      >>-eq-ok (guard (not (text_eq p.namespace own)) (validation "peers.namespace")) _ tt h2 in
    let (b, h4) =
      >>-eq-ok (guard (not (contains p.namespace namespaces)) (validation "peers.namespace")) _ tt
        h3 in
    let (_, h5) =
      >>-eq-ok (guard (not (contains p.alias aliases)) (validation "peers.alias")) _ tt h4 in
    let local = if is_absolute p.path then ok tt else validate_relative_path p.path "peers.path" in
    let (_, h6) = >>-eq-ok local _ tt h5 in
    let a' : not (text_eq p.namespace own) ≡ true =
      guard-eq-ok _ (validation "peers.namespace") a in
    let b' : not (contains p.namespace namespaces) ≡ true =
      guard-eq-ok _ (validation "peers.namespace") b in
    (ground arith, ground arith, h6)

check_peers-later :
    (own k : Text) (ps : List PeerRouteConfig) (namespaces aliases : List Text)
    → check_peers own ps namespaces aliases ≡ ok tt
    → contains k namespaces ≡ true
    → All (λ q. text_eq k q.namespace ≡ false) ps
unfolding contains
check_peers-later own k [] namespaces aliases h c = tt
check_peers-later own k (p ∷ ps) namespaces aliases h c =
    let (_, b, rest) = check_peers-first own p ps namespaces aliases h in
    (
      ground (arith, text_eq_iff k p.namespace, c, b),
      check_peers-later own k ps (p.namespace ∷ namespaces) (p.alias ∷ aliases) rest
          (ground (arith, c)),
    )

-- A peer is found under its own namespace, which is not the project's.
abbrev pub IsReachable : Text → List PeerRouteConfig → PeerRouteConfig → Type 0
IsReachable own peers p =
    (text_eq p.namespace own ≡ false) × (find (λ q. text_eq q.namespace p.namespace) peers ≡ some p)

IsReachable-cons :
    (own : Text) (p : PeerRouteConfig) (ps qs : List PeerRouteConfig)
    → All (λ q. text_eq p.namespace q.namespace ≡ false) qs
    → All (IsReachable own ps) qs
    → All (IsReachable own (p ∷ ps)) qs
IsReachable-cons own p ps [] h r = tt
IsReachable-cons own p ps (q ∷ qs) h r =
    ((r.0.0, rw h.0 r.0.1), IsReachable-cons own p ps qs h.1 r.1)

check_peers-IsReachable :
    (own : Text) (ps : List PeerRouteConfig) (namespaces aliases : List Text)
    → check_peers own ps namespaces aliases ≡ ok tt
    → All (IsReachable own ps) ps
check_peers-IsReachable own [] namespaces aliases h = tt
check_peers-IsReachable own (p ∷ ps) namespaces aliases h =
    let (a, _, rest) = check_peers-first own p ps namespaces aliases h in
    let later : All (λ q. text_eq p.namespace q.namespace ≡ false) ps =
      check_peers-later own p.namespace ps (p.namespace ∷ namespaces) (p.alias ∷ aliases) rest
        (unfold contains in rw (text_eq_refl p.namespace)) in
    (
      (a, rw (text_eq_refl p.namespace)),
      IsReachable-cons own p ps ps later
          (check_peers-IsReachable own ps (p.namespace ∷ namespaces) (p.alias ∷ aliases) rest),
    )

-- In a configuration that is accepted, every peer is the one that its namespace selects, and no peer
-- has the project's own namespace.
pub validate_project_config-IsReachable :
    (config : ProjectConfig)
    → validate_project_config config ≡ ok tt
    → All (IsReachable config.namespace config.peers) config.peers
unfolding validate_project_config
validate_project_config-IsReachable config h =
    let (_, h1) =
      >>-eq-ok (guard (config.schema_version == 1) (validation "schema_version")) _ tt h in
    let (_, h2) = >>-eq-ok (validate_namespace config.namespace) _ tt h1 in
    let (_, h3) = >>-eq-ok (check_serving_dir config.serving_dir) _ tt h2 in
    let teams = guard (not (is_empty config.owner_teams)) (validation "owner_teams") in
    let (_, h4) = >>-eq-ok teams _ tt h3 in
    let (_, h5) = >>-eq-ok (for_each (non_blank "owner_teams") config.owner_teams) _ tt h4 in
    check_peers-IsReachable config.namespace config.peers [] [] h5
