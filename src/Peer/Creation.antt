-- ===== src/Peer/Creation.antt =====
-- `Project::init` and `Project::init_with_owner_teams` of peer_access.rs. The making of directories and the
-- TOML of a configuration are the record `Maker`.
use feather_mesh.Prelude.{
  ℕ, Option, none, some, List, [], ◌∷◌, Text, codes, text_eq, text_less, for_each, ok, err, ok_or,
  guard, if◌then◌else◌, not,
}
use feather_mesh.Std.FilePath.{join}
use feather_mesh.Peer.Error.{IoKind, PeerResult, io, conflict, toml_serialize}
use feather_mesh.Peer.Token.{non_blank, validate_namespace, validate_relative_path}
use feather_mesh.Peer.Types.{Project, ProjectConfig}
use feather_mesh.Peer.Env.{Fs, Os, exists, write_atomic_text}
use feather_mesh.Peer.Opening.{ProjectFiles, absolute_path, config_path}

pub record Maker : Type 0 where
  pub create_dir_all : Fs → Text → Fs × Option IoKind
  pub encode_toml : ProjectConfig → Option (List ℕ)

-- A step that may change the file system.
abbrev pub Changed : Type 0 → Type 0
Changed A = Fs × PeerResult A

abbrev pub and_next : {A B : Type 0} → Changed A → (Fs → A → Changed B) → Changed B
and_next (fs, err e) f = (fs, err e)
and_next (fs, ok a) f = f fs a

abbrev pub unless_error : Fs × Option IoKind → Changed Unit
unless_error (fs, none) = (fs, ok tt)
unless_error (fs, some k) = (fs, err (io k))

unfoldable pub insert_team : Text → List Text → List Text
unfolding text_less
insert_team t [] = t ∷ []
insert_team t (s ∷ ss) =
    let rest = insert_team t ss in if text_less s t then s ∷ rest else t ∷ s ∷ ss

unfoldable pub sort_teams : List Text → List Text
unfolding insert_team
sort_teams [] = []
sort_teams (t ∷ ts) = insert_team t (sort_teams ts)

-- `Vec::dedup`
unfoldable pub keep_first : Text → List Text → List Text
unfolding text_eq
keep_first t [] = t ∷ []
keep_first t (s ∷ ss) = if text_eq t s then s ∷ ss else t ∷ s ∷ ss

unfoldable pub dedup : List Text → List Text
unfolding keep_first
dedup [] = []
dedup (t ∷ ts) = keep_first t (dedup ts)

abbrev pub or_namespace : List Text → Text → List Text
or_namespace [] ns = ns ∷ []
or_namespace (t ∷ ts) ns = t ∷ ts

abbrev pub new_config : Text → Option Text → List Text → ProjectConfig
new_config ns serving teams = record {
  schema_version = 1;
  namespace = ns;
  serving_dir = serving;
  owner_teams = teams;
  peers = [];
}

unfoldable pub make_serving : Maker → Text → Option Text → Fs → Changed Unit
unfolding validate_relative_path join
make_serving m root none fs = (fs, ok tt)
make_serving m root (some path) fs =
    and_next (fs, validate_relative_path path "serving_dir")
      (λ fs u. unless_error (m.create_dir_all fs (join root path)))

unfoldable pub write_config : Maker → Os → Text → ProjectConfig → Fs → Changed Project
unfolding write_atomic_text config_path
write_config m os root config fs =
    and_next (fs, ok_or (m.encode_toml config) toml_serialize)
      (λ fs bytes.
        and_next (write_atomic_text os fs (config_path root) bytes)
          (λ fs u. (fs, ok (record { root = root; config = config }))))

unfoldable pub init_with_owner_teams :
    ProjectFiles → Maker → Os → Fs → Text → Text → Option Text → List Text → Changed Project
unfolding validate_namespace absolute_path join exists config_path make_serving non_blank sort_teams
    dedup write_config
init_with_owner_teams t m os fs path ns serving owner_teams =
    let root = absolute_path t path in
    let teams = or_namespace owner_teams ns in
    and_next (fs, validate_namespace ns)
      (λ fs u. and_next (unless_error (m.create_dir_all fs (join root (codes ".feam")))) (λ fs u.
        and_next (fs, guard (not (exists fs (config_path root))) conflict)
          (λ fs u. and_next (make_serving m root serving fs) (λ fs u.
            and_next (fs, for_each (non_blank "owner_teams") teams)
              (λ fs u.
                write_config m os root (new_config ns serving (dedup (sort_teams teams))) fs)))))

unfoldable pub init : ProjectFiles → Maker → Os → Fs → Text → Text → Option Text → Changed Project
unfolding init_with_owner_teams
init t m os fs path ns serving = init_with_owner_teams t m os fs path ns serving []
