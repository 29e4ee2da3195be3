-- ===== src/Agent/Router/Stream.antt =====
-- `stream_async` of provider.rs: the names and messages of a request, and what is done with the response.
-- The response is its status and its chunks; the bytes of the request's body and sending them are the record
-- `Client`.
use feather_mesh.Prelude.{
  ℕ, ◌+◌, ◌-◌, ◌^◌, ◌==◌, ltb, leb, Bool, true, false, ◌&&◌, ◌||◌, not, Option, none, some, List,
  [], ◌∷◌, ◌++◌, map, Text, codes, text_eq, is_empty, length, contains, Result, ok, err, ok_or,
  guard, ◌>>=◌, ◌>>◌, if◌then◌else◌,
}
use feather_mesh.Std.Decimal.{decimal}
use feather_mesh.Agent.Json.{Json, as_str, get, at_zero}
use feather_mesh.Agent.Disclosure.{redact, outbound, Wire}
use feather_mesh.Agent.Profile.{AgentProfile}
use feather_mesh.Agent.Provider.{
  ProviderToolCall, ModelRequest, ToolSchema, tool_call, finished, ProviderError, authentication,
  rate_limited, too_large, provider_cancelled, protocol, malformed, transport,
}
use feather_mesh.Agent.Sse.{SseParser, new_parser, push, finish}
use feather_mesh.Agent.Router.{
  Codec, RouterToolNames, new_names, local_name, tool_items, wire_messages, PartialToolCall,
  PartialCalls, Shown, and_then, silent, text_at, or_null, process_router_event,
}

-- The tools and the messages of a request, and the names that its response may use; `schemas` is
-- `tool_schemas()`.
unfoldable pub wire_request :
    Codec
    → List ToolSchema
    → ModelRequest
    → Result ProviderError (RouterToolNames × List Json × List Json)
unfolding new_names tool_items wire_messages
wire_request codec schemas request = do
  names ← new_names request.tools
  tools ← tool_items names request.tools
  history_names ← new_names (if is_empty request.tools then schemas else request.tools)
  messages ← wire_messages codec history_names request.messages
  ok (names, tools, messages)

-- A chunk that `stream.next()` gives, or its error, and whether the turn has been cancelled by then.
pub record Arrival : Type 0 where
  pub cancelled : Bool
  pub chunk : Option (List ℕ)

-- The body of a refusal, as far as it is read.
unfoldable pub error_bytes : List ℕ → List Arrival → List ℕ
error_bytes bytes [] = bytes
error_bytes bytes (a ∷ rest) = elim a.chunk [
  | none ↦ bytes
  | some chunk ↦
      if ltb 4096 (length bytes + length chunk) then bytes else error_bytes (bytes ++ chunk) rest
]

unfoldable pub error_message : Codec → Text → List ℕ → Text
unfolding get as_str redact
error_message codec api_key bytes = elim (codec.from_bytes bytes) [
  | none ↦ []
  | some v ↦ elim (text_at (codes "message") (or_null (get (codes "error") v))) [
    | none ↦ []
    | some s ↦ redact s (some api_key)
  ]
]

unfoldable pub refusal : Codec → Text → ℕ → List Arrival → ProviderError
unfolding error_bytes error_message decimal
refusal codec api_key status arrivals =
    if status == 401 || status == 403
    then authentication
    else if status == 429
    then rate_limited
    else transport (
        codes "HTTP "
        ++ decimal status
        ++ codes ": "
        ++ error_message codec api_key (error_bytes [] arrivals))

pub record Received : Type 0 where
  pub parser : SseParser
  pub tool_calls : PartialCalls
  pub emitted : ℕ
  pub done : Bool
  pub finish_reason : Option Text

abbrev pub nothing_received : Received
nothing_received = record {
  parser = new_parser;
  tool_calls = [];
  emitted = 0;
  done = false;
  finish_reason = none;
}

abbrev pub is_done : Text → Bool
is_done event = text_eq event (codes "[DONE]")

abbrev pub or_else : {A : Type 0} → Option A → Option A → Option A
or_else none b = b
or_else (some a) b = some a

abbrev pub at_zero_of : Option Json → Option Json
at_zero_of none = none
at_zero_of (some v) = at_zero v

-- The pointer `/choices/0/finish_reason`, if it is a text.
unfoldable pub finish_reason_of : Json → Option Text
unfolding get at_zero as_str
finish_reason_of frame =
    text_at (codes "finish_reason") (or_null (at_zero_of (get (codes "choices") frame)))

unfoldable pub handle_event : Codec → Received → Text → Shown Received
unfolding text_eq finish_reason_of process_router_event
handle_event codec r event =
    if is_done event
    then silent (ok (record r { done = true }))
    else and_then
        (silent
          (ok_or (codec.from_text (codec.characters event)) (malformed (codes "invalid SSE JSON"))))
        (λ frame.
          and_then (process_router_event codec r.tool_calls (codec.characters event)) (λ calls.
            silent (
              ok (record r {
                tool_calls = calls;
                finish_reason = or_else (finish_reason_of frame) r.finish_reason;
              }))))

unfoldable pub handle_events : Codec → Received → List Text → Shown Received
unfolding handle_event
handle_events codec r [] = silent (ok r)
handle_events codec r (event ∷ events) =
    and_then (handle_event codec r event) (λ next. handle_events codec next events)

abbrev pub saturating_add : ℕ → ℕ → ℕ
saturating_add a b = if ltb (a + b) (2 ^ 64) then a + b else 2 ^ 64 - 1

-- The tests of a chunk, and what the parser makes of it.
unfoldable pub accept_chunk :
    Codec → ℕ → Received → Arrival → Result ProviderError (Received × List Text)
unfolding push
accept_chunk codec limit r a = do
  guard (not a.cancelled) provider_cancelled
  chunk ← ok_or a.chunk (transport (codes "HTTP transport failure"))
  let emitted = saturating_add r.emitted (length chunk)
  guard (leb emitted limit) too_large
  parsed ← push codec.utf8_error r.parser chunk
  ok (record r { parser = parsed.0; emitted = emitted }, parsed.1)

unfoldable pub read_chunks : Codec → ℕ → Received → List Arrival → Shown Received
unfolding accept_chunk handle_events
read_chunks codec limit r [] = silent (ok r)
read_chunks codec limit r (a ∷ arrivals) =
    and_then (silent (accept_chunk codec limit r a)) (λ accepted.
      and_then (handle_events codec accepted.0 accepted.1)
        (λ next. read_chunks codec limit next arrivals))

unfoldable pub last_events : Codec → PartialCalls → List Text → Shown PartialCalls
unfolding text_eq process_router_event
last_events codec calls [] = silent (ok calls)
last_events codec calls (event ∷ events) =
    and_then
      (if is_done event
        then silent (ok calls)
        else process_router_event codec calls (codec.characters event))
      (λ next. last_events codec next events)

unfoldable pub finish_response : Codec → Received → Shown PartialCalls
unfolding finish last_events
finish_response codec r =
    and_then (silent (finish r.parser)) (λ parsed. last_events codec r.tool_calls parsed.1)

-- The reasons with which a completion ends as it should.
abbrev pub is_ended : Option Text → Bool
is_ended none = false
is_ended (some reason) = text_eq reason (codes "stop") || text_eq reason (codes "tool_calls")

unfoldable pub complete_call :
    Codec → RouterToolNames → List Text → PartialToolCall → Result ProviderError ProviderToolCall
unfolding contains local_name
complete_call codec names ids call = do
  id ← ok_or call.id (malformed (codes "tool call has no id"))
  guard (not (contains id ids)) (malformed (codes "duplicate tool call ID"))
  wire ← ok_or call.name (malformed (codes "tool call has no name"))
  name ← local_name names wire
  arguments ←
      ok_or (codec.from_text call.arguments)
        (malformed (codes "tool arguments are not complete JSON"))
  ok (record { id = id; name = name; arguments = arguments })

unfoldable pub complete_calls :
    Codec
    → RouterToolNames
    → List Text
    → PartialCalls
    → Result ProviderError (List ProviderToolCall)
unfolding complete_call
complete_calls codec names ids [] = ok []
complete_calls codec names ids ((index, partial) ∷ partials) = do
  call ← complete_call codec names ids partial
  calls ← complete_calls codec names (call.id ∷ ids) partials
  ok (call ∷ calls)

unfoldable pub conclude_response :
    Codec → RouterToolNames → Received → PartialCalls → Result ProviderError (List ProviderToolCall)
unfolding text_eq complete_calls
conclude_response codec names r calls = do
  guard (r.done && is_ended r.finish_reason)
      (protocol (codes "incomplete or truncated completion; no tool executed"))
  complete_calls codec names [] calls

-- What `stream_async` does with a response: the events that it shows, and its result.
unfoldable pub stream_response : Codec → RouterToolNames → Text → ℕ → ℕ → List Arrival → Shown Unit
unfolding refusal read_chunks finish_response conclude_response
stream_response codec names api_key limit status arrivals =
    if leb 200 status && ltb status 300
    then and_then (read_chunks codec limit nothing_received arrivals) (λ r.
      and_then (finish_response codec r) (λ calls.
        and_then (silent (conclude_response codec names r calls))
          (λ complete. (map tool_call complete ++ finished ∷ [], ok tt))))
    else silent (err (refusal codec api_key status arrivals))

pub record Response : Type 0 where
  pub status : ℕ
  pub arrivals : List Arrival

-- The bytes of a request with these tools and messages, and the response to it or the error that reqwest
-- reports.
pub record Client : Type 0 where
  pub body : AgentProfile → List Json → List Json → Option (List ℕ)
  pub send : List ℕ → Result ProviderError Response

-- The names that the response may use, and the request's bytes.
unfoldable pub encode_request :
    Wire
    → Codec
    → Client
    → List ToolSchema
    → AgentProfile
    → Text
    → ModelRequest
    → Result ProviderError (RouterToolNames × List ℕ)
unfolding outbound wire_request
encode_request w codec client schemas profile api_key request = do
  sent ← outbound w request profile (some api_key)
  wired ← wire_request codec schemas sent
  bytes ←
      ok_or (client.body profile wired.1 wired.2) (protocol (codes "request serialization failed"))
  guard (not (ltb profile.max_request_bytes (length bytes))) too_large
  ok (wired.0, bytes)

-- `stream_async`: the events that it shows of a request, and its result.
unfoldable pub stream_async :
    Wire → Codec → Client → List ToolSchema → AgentProfile → Text → ModelRequest → Shown Unit
unfolding encode_request stream_response
stream_async w codec client schemas profile api_key request =
    and_then (silent (encode_request w codec client schemas profile api_key request)) (λ encoded.
      and_then (silent (client.send encoded.1)) (λ response.
        stream_response codec encoded.0 api_key profile.max_response_bytes response.status
          response.arrivals))
