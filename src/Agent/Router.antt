-- ===== src/Agent/Router.antt =====
-- The router of provider.rs: the names of its tools, the events of a response, and the response as a whole
-- (Stream). serde_json and the characters of UTF-8 bytes are the record `Codec`.
pub mod Names
pub mod Stream
pub mod Batches
pub mod Offered
use feather_mesh.Prelude.{
  ℕ, zero, suc, ◌==◌, ltb, leb, Bool, true, false, ◌&&◌, ◌||◌, not, Option, none, some, List, [],
  ◌∷◌, ◌++◌, Text, codes, text_eq, is_empty, lookup, insert, all, Result, ok, err, ok_or, guard,
  ◌>>=◌, ◌>>◌, if◌then◌else◌,
}
use feather_mesh.Std.Char.{is_ascii_alphanumeric}
use feather_mesh.Agent.Json.{
  Json, null, string, array, object, Items, no_items, item, Fields, no_fields, field, byte_length,
  as_str, get, first_item, as_u64,
}
use feather_mesh.Agent.Disclosure.{replace, replace_from}
use feather_mesh.Agent.Provider.{
  ProviderToolCall, ModelMessage, ToolSchema, ProviderUsage, ProviderEvent, text_delta, tool_call,
  usage, ProviderError, configuration, protocol, malformed, transport,
}

pub record Codec : Type 0 where
  pub to_text : Json → Text
  pub from_text : Text → Option Json
  pub from_bytes : List ℕ → Option Json
  pub text_error : Text → Text
  pub utf8_error : List ℕ → Text
  pub characters : List ℕ → Text
  pub as_f64 : Json → Option ℕ

pub record RouterToolNames : Type 0 where
  pub to_wire : List (Text × Text)
  pub to_local : List (Text × Text)

abbrev pub no_names : RouterToolNames
no_names = record { to_wire = []; to_local = [] }

abbrev pub is_wire_char : ℕ → Bool
is_wire_char c = is_ascii_alphanumeric c || c == b'_' || c == b'-'

abbrev pub is_some : {A : Type 0} → Option A → Bool
is_some none = false
is_some (some a) = true

unfoldable pub wire_of : Text → Text
unfolding replace_from
wire_of name = replace (codes ".") (codes "__") name

-- What a name must be to be added.
unfoldable pub is_wire_name : RouterToolNames → Text → Bool
unfolding byte_length is_ascii_alphanumeric lookup
is_wire_name names wire = not (
    is_empty wire
    || ltb 64 (byte_length wire)
    || not (all is_wire_char wire)
    || is_some (lookup wire names.to_local))

unfoldable pub add_name : RouterToolNames → Text → Text → RouterToolNames
unfolding insert
add_name names name wire = record {
  to_wire = insert name wire names.to_wire;
  to_local = insert wire name names.to_local;
}

unfoldable pub add_names : RouterToolNames → List ToolSchema → Result ProviderError RouterToolNames
unfolding wire_of is_wire_name add_name
add_names names [] = ok names
add_names names (tool ∷ tools) = do
  guard (is_wire_name names (wire_of tool.name)) (
      configuration (
        codes
          "tool names must map to distinct router function names of 1–64 ASCII letters, digits, underscores, or dashes"))
  add_names (add_name names tool.name (wire_of tool.name)) tools

unfoldable pub new_names : List ToolSchema → Result ProviderError RouterToolNames
unfolding add_names
new_names tools = add_names no_names tools

unfoldable pub wire_name : RouterToolNames → Text → Result ProviderError Text
unfolding lookup
wire_name names name =
    ok_or (lookup name names.to_wire)
      (protocol (codes "tool history contains a tool outside the request schema"))

unfoldable pub local_name : RouterToolNames → Text → Result ProviderError Text
unfolding lookup
local_name names wire =
    ok_or (lookup wire names.to_local)
      (protocol (codes "provider returned a tool outside the request schema"))

-- `json!` of an object, whose keys serde_json keeps in alphabetical order.
abbrev pub object_of : List (Text × Json) → Json
object_of fs = object (fields_of fs)
  where
    fields_of : List (Text × Json) → Fields
    fields_of [] = no_fields
    fields_of ((k, v) ∷ rest) = field k v (fields_of rest)

unfoldable pub tool_schema : RouterToolNames → ToolSchema → Result ProviderError Json
unfolding wire_name
tool_schema names tool = do
  wire ← wire_name names tool.name
  ok (
      object_of (
        (
          codes "function",
          object_of (
              (codes "description", string tool.description)
              ∷ (codes "name", string wire)
              ∷ (codes "parameters", tool.parameters)
              ∷ []),
        )
        ∷ (codes "type", string (codes "function"))
        ∷ []))

unfoldable pub tool_items : RouterToolNames → List ToolSchema → Result ProviderError (List Json)
unfolding tool_schema
tool_items names [] = ok []
tool_items names (tool ∷ tools) = do
  v ← tool_schema names tool
  vs ← tool_items names tools
  ok (v ∷ vs)

unfoldable pub wire_call : Codec → RouterToolNames → ProviderToolCall → Result ProviderError Json
unfolding wire_name
wire_call codec names call = do
  wire ← wire_name names call.name
  ok (
      object_of (
        (
          codes "function",
          object_of (
              (codes "arguments", string (codec.to_text call.arguments))
              ∷ (codes "name", string wire)
              ∷ []),
        )
        ∷ (codes "id", string call.id)
        ∷ (codes "type", string (codes "function"))
        ∷ []))

unfoldable pub wire_calls :
    Codec → RouterToolNames → List ProviderToolCall → Result ProviderError Items
unfolding wire_call
wire_calls codec names [] = ok no_items
wire_calls codec names (call ∷ calls) = do
  v ← wire_call codec names call
  vs ← wire_calls codec names calls
  ok (item v vs)

abbrev pub id_fields : Option Text → List (Text × Json)
id_fields none = []
id_fields (some id) = (codes "tool_call_id", string id) ∷ []

unfoldable pub call_fields :
    Codec
    → RouterToolNames
    → Option (List ProviderToolCall)
    → Result ProviderError (List (Text × Json))
unfolding wire_calls
call_fields codec names none = ok []
call_fields codec names (some calls) = do
  vs ← wire_calls codec names calls
  ok ((codes "tool_calls", array vs) ∷ [])

unfoldable pub wire_message : Codec → RouterToolNames → ModelMessage → Result ProviderError Json
unfolding call_fields
wire_message codec names message = do
  calls ← call_fields codec names message.tool_calls
  ok (
      object_of (
        (codes "content", message.content)
          ∷ (codes "role", string message.role)
          ∷ id_fields message.tool_call_id
        ++ calls))

unfoldable pub wire_messages :
    Codec → RouterToolNames → List ModelMessage → Result ProviderError (List Json)
unfolding wire_message
wire_messages codec names [] = ok []
wire_messages codec names (message ∷ messages) = do
  v ← wire_message codec names message
  vs ← wire_messages codec names messages
  ok (v ∷ vs)

pub record PartialToolCall : Type 0 where
  pub id : Option Text
  pub name : Option Text
  pub arguments : Text

abbrev pub no_call : PartialToolCall
no_call = record { id = none; name = none; arguments = [] }

-- The calls by their index, in its order.
abbrev pub PartialCalls : Type 0
PartialCalls = List (ℕ × PartialToolCall)

unfoldable pub call_at : ℕ → PartialCalls → PartialToolCall
call_at i [] = no_call
call_at i ((j, c) ∷ cs) = if j == i then c else call_at i cs

unfoldable pub put_call : ℕ → PartialToolCall → PartialCalls → PartialCalls
put_call i c [] = (i, c) ∷ []
put_call i c ((j, d) ∷ cs) =
    let rest = put_call i c cs in
    if j == i then (i, c) ∷ cs else if ltb j i then (j, d) ∷ rest else (i, c) ∷ (j, d) ∷ cs

-- The events that were shown, and the result.
abbrev pub Shown : Type 0 → Type 0
Shown A = List ProviderEvent × Result ProviderError A

abbrev pub shown_before : {A : Type 0} → List ProviderEvent → Shown A → Shown A
shown_before es r = (es ++ r.0, r.1)

unfoldable pub and_then : {A B : Type 0} → Shown A → (A → Shown B) → Shown B
and_then (es, err e) f = (es, err e)
and_then (es, ok a) f = shown_before es (f a)

abbrev pub silent : {A : Type 0} → Result ProviderError A → Shown A
silent r = ([], r)

abbrev pub text_at : Text → Json → Option Text
text_at k v = and_text (get k v)
  where
    and_text : Option Json → Option Text
    and_text none = none
    and_text (some w) = as_str w

abbrev pub number_at : Text → Json → Option ℕ
number_at k v = and_number (get k v)
  where
    and_number : Option Json → Option ℕ
    and_number none = none
    and_number (some w) = as_u64 w

-- A part that a later fragment may repeat, but not change.
abbrev pub keep_part : Option Text → Option Text → Text → Result ProviderError (Option Text)
keep_part old none message = ok old
keep_part none (some part) message = ok (some part)
keep_part (some old) (some part) message =
    if text_eq old part then ok (some part) else err (malformed message)

abbrev pub or_text : Option Text → Text
or_text none = []
or_text (some s) = s

abbrev pub or_zero : Option ℕ → ℕ
or_zero none = 0
or_zero (some n) = n

abbrev pub or_null : Option Json → Json
or_null none = null
or_null (some v) = v

unfoldable pub add_fragment : PartialCalls → Json → Result ProviderError PartialCalls
unfolding get as_u64 as_str call_at put_call text_eq
add_fragment calls fragment = do
  guard (ltb (or_zero (number_at (codes "index") fragment)) 8)
      (protocol (codes "too many tool calls"))
  let index = or_zero (number_at (codes "index") fragment)
  let old = call_at index calls
  let function = or_null (get (codes "function") fragment)
  id ← keep_part old.id (text_at (codes "id") fragment) (codes "tool call ID changed")
  name ← keep_part old.name (text_at (codes "name") function) (codes "tool name changed")
  ok (
      put_call index
        (record {
          id = id;
          name = name;
          arguments = old.arguments ++ or_text (text_at (codes "arguments") function);
        })
        calls)

unfoldable pub add_fragments : PartialCalls → Items → Result ProviderError PartialCalls
unfolding add_fragment
add_fragments calls no_items = ok calls
add_fragments calls (item v vs) = do calls' ← add_fragment calls v; add_fragments calls' vs

abbrev pub usage_events : Codec → Json → Option Json → List ProviderEvent
usage_events codec value none = []
usage_events codec value (some u) =
    usage (record {
      model = text_at (codes "model") value;
      provider = text_at (codes "provider") value;
      generation_id = text_at (codes "id") value;
      input_tokens = number_at (codes "prompt_tokens") u;
      output_tokens = number_at (codes "completion_tokens") u;
      cost_usd = f64_at (get (codes "cost") u);
    })
    ∷ []
  where
    f64_at : Option Json → Option ℕ
    f64_at none = none
    f64_at (some v) = codec.as_f64 v

abbrev pub content_events : Option Text → List ProviderEvent
content_events none = []
content_events (some s) = text_delta s ∷ []

abbrev pub fragments_of : Option Json → Items
fragments_of (some (array vs)) = vs
fragments_of v = no_items

abbrev pub first_choice : Option Json → Option Json
first_choice none = none
first_choice (some v) = first_item v

unfoldable pub process_choice : PartialCalls → Option Json → Shown PartialCalls
unfolding get add_fragments as_str
process_choice calls none = ([], ok calls)
process_choice calls (some choice) =
    let delta = or_null (get (codes "delta") choice) in
    shown_before (content_events (text_at (codes "content") delta))
      (silent (add_fragments calls (fragments_of (get (codes "tool_calls") delta))))

unfoldable pub process_router_event : Codec → PartialCalls → Text → Shown PartialCalls
unfolding get as_str as_u64 first_item process_choice
process_router_event codec calls raw =
    and_then (silent (ok_or (codec.from_text raw) (malformed (codec.text_error raw)))) (λ value.
      if is_some (get (codes "error") value)
      then silent (err (transport (codes "provider reported an in-stream error")))
      else shown_before (usage_events codec value (get (codes "usage") value))
          (process_choice calls (first_choice (get (codes "choices") value))))
