-- ===== src/Agent/Config.antt =====
-- `AgentConfig` of config.rs: its loading and the choice of a profile. The reading of the file and its TOML
-- are the record `ConfigFile`.
use feather_mesh.Prelude.{
  ℕ, ◌==◌, Option, none, some, List, [], ◌∷◌, Text, codes, lookup, Result, ok, err, ok_or, guard,
  ◌>>=◌, ◌>>◌,
}
use feather_mesh.Std.FilePath.{join}
use feather_mesh.Agent.Profile.{Floats, AgentProfile, ProfileError, validate}

-- The profiles stand in the order of their names.
pub record AgentConfig : Type 0 where
  pub schema_version : ℕ
  pub default_profile : Option Text
  pub profiles : List (Text × AgentProfile)

pub record ConfigFile : Type 0 where
  pub read_to_string : Text → Option Text
  pub decode_toml : Text → Option AgentConfig
  pub env_var : Text → Option Text

pub data ConfigError : Type 0 where
  config_io config_toml config_schema missing_default : ConfigError
  invalid_profile : Text → ProfileError → ConfigError
  missing_profile : Text → ConfigError

abbrev pub named : {A : Type 0} → Text → Result ProfileError A → Result ConfigError A
named name (ok a) = ok a
named name (err e) = err (invalid_profile name e)

unfoldable pub validate_profiles :
    Floats → List (Text × AgentProfile) → Result ConfigError (Unit {0})
unfolding validate
validate_profiles f [] = ok tt
validate_profiles f ((name, profile) ∷ rest) =
    named name (validate f profile) >> validate_profiles f rest

unfoldable pub load : Floats → ConfigFile → Text → Result ConfigError AgentConfig
unfolding validate_profiles
load f c path = do
  text ← ok_or (c.read_to_string path) config_io
  config ← ok_or (c.decode_toml text) config_toml
  guard (config.schema_version == 1) config_schema
  validate_profiles f config.profiles
  ok config

abbrev pub requested_or : Option Text → Option Text → Option Text
requested_or none other = other
requested_or (some name) other = some name

unfoldable pub selected : AgentConfig → Option Text → Result ConfigError (Text × AgentProfile)
unfolding lookup
selected config requested = do
  name ← ok_or (requested_or requested config.default_profile) missing_default
  profile ← ok_or (lookup name config.profiles) (missing_profile name)
  ok (name, profile)

unfoldable pub in_home : Option Text → Option Text
unfolding join
in_home none = none
in_home (some home) = some (join home (codes ".config"))

unfoldable pub default_path : ConfigFile → Option Text
unfolding in_home join
default_path c =
    elim (requested_or (c.env_var (codes "XDG_CONFIG_HOME")) (in_home (c.env_var (codes "HOME")))) [
      | none ↦ none
      | some base ↦ some (join base (codes "feam/agent.toml"))
    ]
