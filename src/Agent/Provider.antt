-- ===== src/Agent/Provider.antt =====
-- The messages, requests, events and errors of provider.rs. An `f64` is its 64-bit pattern.
use feather_mesh.Prelude.{ℕ, Option, List, String, Text}
use feather_mesh.Agent.Json.{Json}

pub record ProviderToolCall : Type 0 where
  pub id : Text
  pub name : Text
  pub arguments : Json

pub record ModelMessage : Type 0 where
  pub role : Text
  pub content : Json
  pub tool_call_id : Option Text
  pub tool_calls : Option (List ProviderToolCall)

pub record ToolSchema : Type 0 where
  pub name : Text
  pub description : Text
  pub parameters : Json

pub record ModelRequest : Type 0 where
  pub messages : List ModelMessage
  pub tools : List ToolSchema
  pub max_response_chars : ℕ

pub record ProviderUsage : Type 0 where
  pub model : Option Text
  pub provider : Option Text
  pub generation_id : Option Text
  pub input_tokens : Option ℕ
  pub output_tokens : Option ℕ
  pub cost_usd : Option ℕ

pub data ProviderEvent : Type 0 where
  text_delta : Text → ProviderEvent
  tool_call : ProviderToolCall → ProviderEvent
  usage : ProviderUsage → ProviderEvent
  finished : ProviderEvent

pub data ProviderError : Type 0 where
  configuration transport malformed protocol : Text → ProviderError
  authentication rate_limited too_large provider_cancelled : ProviderError

-- `ProviderError::kind`
unfoldable pub provider_error_kind : ProviderError → String
provider_error_kind (configuration m) = "provider_configuration"
provider_error_kind authentication = "provider_authentication"
provider_error_kind rate_limited = "provider_rate_limited"
provider_error_kind (transport m) = "provider_transport"
provider_error_kind too_large = "provider_output_too_large"
provider_error_kind (malformed m) = "provider_malformed_response"
provider_error_kind provider_cancelled = "provider_cancelled"
provider_error_kind (protocol m) = "provider_protocol"
