-- ===== src/Agent/Profile.antt =====
-- `AgentProfile` of config.rs and its `validate`. An `f64` is its 64-bit pattern, and what the code
-- asks of such numbers is the record `Floats`.
use feather_mesh.Prelude.{
  ℕ, Bool, true, false, ◌&&◌, ◌||◌, not, Option, none, some, List, [], ◌∷◌, Text, codes, text_eq,
  starts_with, is_empty, any, all, leb, Result, ok, guard, ◌>>◌,
}
use feather_mesh.Std.Str.{is_blank, split_on, strip_prefix, contains_char}
use feather_mesh.Std.Decimal.{parse_usize}
use feather_mesh.Std.FilePath.{is_absolute}

pub record Floats : Type 0 where
  pub is_finite : ℕ → Bool
  pub is_less : ℕ → ℕ → Bool
  pub is_at_least : ℕ → ℕ → Bool
  pub add : ℕ → ℕ → ℕ
  pub multiply : ℕ → ℕ → ℕ
  pub divide : ℕ → ℕ → ℕ
  pub from_nat : ℕ → ℕ
  pub zero : ℕ

pub record AgentProfile : Type 0 where
  pub backend : Text
  pub base_url : Text
  pub loopback_ca_file : Option Text
  pub model : Text
  pub api_key_env : Text
  pub context_policy : Text
  pub max_tool_calls : ℕ
  pub max_request_seconds : ℕ
  pub max_context_chars : ℕ
  pub max_response_chars : ℕ
  pub max_cost_usd : Option ℕ
  pub allowed_providers : List Text
  pub allow_provider_fallbacks : Bool
  pub allow_user_text : Bool
  pub max_request_bytes : ℕ
  pub max_response_bytes : ℕ
  pub max_output_tokens : ℕ
  pub allowed_metadata_fields : List Text
  pub max_input_price : Option ℕ
  pub max_output_price : Option ℕ
  pub reasoning_enabled : Bool

-- Why a profile is refused.
pub data ProfileError : Type 0 where
  bad_backend blank_model bad_tool_calls bad_request_seconds bad_limits bad_cost : ProfileError
  bad_context_policy bad_bounds bad_metadata_field bad_price insecure_url bad_url : ProfileError
  bad_loopback_ca : ProfileError

abbrev pub within : ℕ → ℕ → ℕ → Bool
within low high n = leb low n && leb n high

-- What `validate_endpoint` accepts after a loopback host.
unfoldable pub ends_host : Text → Bool
unfolding starts_with
ends_host rest = is_empty rest || starts_with (codes ":") rest || starts_with (codes "/") rest

unfoldable pub is_loopback_url : Text → Text → Bool
unfolding strip_prefix ends_host
is_loopback_url value prefix = elim (strip_prefix prefix value) [
  | none ↦ false
  | some rest ↦ ends_host rest
]

-- The text before the first slash.
unfoldable pub host_part : Text → Text
unfolding split_on
host_part rest = elim (split_on b'/' rest) [ [] ↦ [] | host ∷ others ↦ host ]

-- `split_once("://")`
unfoldable pub after_scheme : Text → Text
unfolding strip_prefix host_part
after_scheme [] = []
after_scheme (c ∷ s) =
    let rest = after_scheme s in
    elim (strip_prefix (codes "://") (c ∷ s)) [ none ↦ rest | some authority ↦ host_part authority ]

unfoldable pub validate_endpoint : Text → Result ProfileError (Unit {0})
unfolding starts_with is_loopback_url after_scheme
validate_endpoint value = do
  guard
      (starts_with (codes "https://") value
        || is_loopback_url value (codes "http://127.0.0.1")
        || is_loopback_url value (codes "http://localhost"))
      insecure_url
  let authority = after_scheme value
  guard
      (not (
        contains_char b'?' value
        || contains_char b'#' value
        || is_empty authority
        || contains_char b'@' authority
        || contains_char b'#' authority
        || contains_char b'?' authority))
      bad_url

abbrev pub metadata_fields : List Text
metadata_fields =
    codes "name"
    ∷ codes "description"
    ∷ codes "limitations"
    ∷ codes "intended_use"
    ∷ codes "usage_policy"
    ∷ codes "lineage"
    ∷ codes "owner_team"
    ∷ []

unfoldable pub is_metadata_field : Text → Bool
unfolding text_eq
is_metadata_field key = any (text_eq key) metadata_fields

module _ (f : Floats) where
  unfoldable pub is_price : Option ℕ → Bool
  is_price none = true
  is_price (some price) = f.is_finite price && not (f.is_less price f.zero)

  unfoldable pub is_cost_limit : Option ℕ → Bool
  is_cost_limit none = true
  is_cost_limit (some limit) = f.is_finite limit && f.is_less f.zero limit

-- `port.parse::<u16>().is_ok_and(|value| value > 0)`
unfoldable pub is_port : Text → Bool
unfolding parse_usize
is_port s = elim (parse_usize s) [ none ↦ false | some n ↦ within 1 65535 n ]

unfoldable pub is_loopback_authority : Text → Bool
unfolding is_port strip_prefix text_eq
is_loopback_authority authority =
    text_eq authority (codes "127.0.0.1") || elim (strip_prefix (codes "127.0.0.1:") authority) [
      | none ↦ false
      | some port ↦ is_port port
    ]

unfoldable pub check_loopback_ca : Text → Option Text → Result ProfileError (Unit {0})
unfolding is_loopback_authority host_part strip_prefix is_absolute
check_loopback_ca url none = ok tt
check_loopback_ca url (some path) =
    guard
      (is_absolute path && elim (strip_prefix (codes "https://") url) [
        | none ↦ false
        | some rest ↦ is_loopback_authority (host_part rest)
      ])
      bad_loopback_ca

unfoldable pub validate : Floats → AgentProfile → Result ProfileError (Unit {0})
unfolding text_eq is_metadata_field is_price is_cost_limit validate_endpoint check_loopback_ca
validate f p = do
  guard (text_eq p.backend (codes "router")) bad_backend
  guard (not (is_blank p.model || is_blank p.api_key_env)) blank_model
  guard (within 1 8 p.max_tool_calls) bad_tool_calls
  guard (within 1 120 p.max_request_seconds) bad_request_seconds
  guard (leb 1 p.max_context_chars && leb 1 p.max_response_chars) bad_limits
  guard (is_cost_limit f p.max_cost_usd) bad_cost
  guard
      (text_eq p.context_policy (codes "synthetic-demo")
        || text_eq p.context_policy (codes "metadata-only"))
      bad_context_policy
  guard
      (within 1024 1048576 p.max_request_bytes
        && within 1024 1048576 p.max_response_bytes
        && within 1 4096 p.max_output_tokens
        && leb p.max_context_chars 262144
        && leb p.max_response_chars 262144)
      bad_bounds
  guard (all is_metadata_field p.allowed_metadata_fields) bad_metadata_field
  guard (is_price f p.max_input_price && is_price f p.max_output_price) bad_price
  validate_endpoint p.base_url
  check_loopback_ca p.base_url p.loopback_ca_file
