-- ===== src/Examples/Routers.antt =====
-- A response of a router, in chunks, and its events.
use feather_mesh.Prelude.{
  ℕ, ◌≡◌, refl, false, none, some, List, [], ◌∷◌, ◌++◌, concat, codes, All, ok, text_eq,
  if◌then◌else◌, lookup, insert, contains, starts_with,
}
use feather_mesh.Std.Char.{is_ascii_alphanumeric}
use feather_mesh.Std.Str.{strip_prefix}
use feather_mesh.Std.Decimal.{parse_usize, parse_digits}
use feather_mesh.Std.Utf8.{
  utf8_prefix, scan, scan_byte, take_byte, continue_character, begin_character, lead,
}
use feather_mesh.Agent.Json.{
  Json, null, string, number, array, object, no_items, item, no_fields, field, byte_length, as_str,
  get, field_of, as_u64, first_item, at_zero,
}
use feather_mesh.Agent.Disclosure.{replace_from}
use feather_mesh.Agent.Provider.{ToolSchema, ModelRequest, tool_call, finished}
use feather_mesh.Agent.Sse.{
  new_parser, finish, push, push_chunks, push_text, push_parts, push_part, push_line, split_lines,
  cons_line, strip_last, process_line,
}
use feather_mesh.Agent.Sse.Chunks.{outcome, push_chunks-push}
use feather_mesh.Agent.Router.{
  Codec, RouterToolNames, new_names, add_names, add_name, is_wire_name, wire_of, wire_name,
  local_name, process_router_event, process_choice, add_fragments, add_fragment, and_then, call_at,
  put_call,
}
use feather_mesh.Agent.Router.Names.{local_name-wire_name}
use feather_mesh.Agent.Router.Stream.{
  Arrival, Client, stream_async, stream_response, read_chunks, accept_chunk, handle_events,
  handle_event, finish_reason_of, finish_response, last_events, conclude_response, complete_calls,
  complete_call,
}
use feather_mesh.Examples.Agents.{profile, wire}
use feather_mesh.Agent.Router.Batches.{IsAnswer}
use feather_mesh.Agent.Router.Offered.{IsOffered, stream_async-IsAnswer}

abbrev describe : List ℕ → List ℕ
describe bytes = codes "invalid utf-8"

-- A field whose value is cut within its last character.
abbrev chunks : List (List ℕ)
chunks = (codes "data: caf" ++ 0xc3 ∷ []) ∷ (0xa9 ∷ 10 ∷ []) ∷ (10 ∷ []) ∷ []

push_chunks-push_example :
    outcome (push_chunks describe new_parser chunks)
    ≡ outcome (push describe new_parser (concat chunks))
push_chunks-push_example = push_chunks-push describe chunks (refl, (refl, (refl, tt)))

-- A cut between a carriage return and a line feed: the blank line does not end the event.
cr_lf_cut :
    outcome
      (push_chunks describe new_parser ((codes "data: x" ++ 13 ∷ 10 ∷ 13 ∷ []) ∷ (10 ∷ []) ∷ []))
    ≡ some (record { undecoded = []; line = []; data_lines = codes "x" ∷ [] }, [])
unfolding push_chunks push push_text push_parts push_part push_line split_lines cons_line strip_last
    process_line strip_prefix utf8_prefix scan scan_byte take_byte continue_character
    begin_character lead starts_with
cr_lf_cut = refl

cr_lf_whole :
    outcome (push describe new_parser (codes "data: x" ++ 13 ∷ 10 ∷ 13 ∷ 10 ∷ []))
    ≡ some (new_parser, codes "x" ∷ [])
unfolding push push_text push_parts push_part push_line split_lines cons_line strip_last
    process_line strip_prefix utf8_prefix scan scan_byte take_byte continue_character
    begin_character lead starts_with
cr_lf_whole = refl

abbrev tools : List ToolSchema
tools =
    record { name = codes "help.lookup"; description = codes "d"; parameters = null }
    ∷ record { name = codes "peers.status"; description = codes "d"; parameters = null }
    ∷ []

abbrev names : RouterToolNames
names = record {
  to_wire =
      (codes "help.lookup", codes "help__lookup")
      ∷ (codes "peers.status", codes "peers__status")
      ∷ [];
  to_local =
      (codes "help__lookup", codes "help.lookup")
      ∷ (codes "peers__status", codes "peers.status")
      ∷ [];
}

names_accepted : new_names tools ≡ ok names
unfolding new_names add_names add_name is_wire_name wire_of replace_from lookup insert byte_length
    is_ascii_alphanumeric text_eq starts_with
names_accepted = refl

local_name-wire_name_example :
    All
      (λ tool.
        (wire_name names tool.name ≡ ok (wire_of tool.name))
        × (local_name names (wire_of tool.name) ≡ ok tool.name))
      tools
local_name-wire_name_example = local_name-wire_name tools names names_accepted

abbrev fragment : Json
fragment = object (
    field (codes "index") (number (codes "0")) (
      field (codes "id") (string (codes "c1")) (
        field (codes "function")
          (object (
            field (codes "name") (string (codes "help__lookup"))
              (field (codes "arguments") (string (codes "{}")) no_fields)))
          no_fields)))

abbrev call_frame : Json
call_frame = object (
    field (codes "choices")
      (array (
        item
          (object (
            field (codes "delta")
              (object (field (codes "tool_calls") (array (item fragment no_items)) no_fields))
              (field (codes "finish_reason") (string (codes "tool_calls")) no_fields)))
          no_items))
      no_fields)

abbrev codec : Codec
codec = record {
  to_text = λ v. codes "{}";
  from_text = λ s. if text_eq s (codes "call") then some call_frame else some null;
  from_bytes = λ s. none;
  text_error = λ s. codes "e";
  utf8_error = describe;
  characters = λ s. s;
  as_f64 = λ v. none;
}

abbrev arrivals : List Arrival
arrivals =
    record { cancelled = false; chunk = some (codes "data: call\n\n") }
    ∷ record { cancelled = false; chunk = some (codes "data: [DONE]\n\n") }
    ∷ []

abbrev client : Client
client = record {
  body = λ p ts ms. some (codes "{}");
  send = λ bytes. ok (record { status = 200; arrivals = arrivals });
}

abbrev request : ModelRequest
request = record { messages = []; tools = tools; max_response_chars = 1024 }

stream_async-IsAnswer_example :
    IsAnswer (IsOffered tools) (stream_async wire codec client [] profile (codes "k") request)
stream_async-IsAnswer_example =
    stream_async-IsAnswer wire codec client [] profile (codes "k") request

-- The call comes after the whole response has been read.
call_shown : stream_response codec names (codes "k") 1000 200 arrivals ≡ (
  tool_call (record { id = codes "c1"; name = codes "help.lookup"; arguments = null })
      ∷ finished
      ∷ [],
  ok tt,
)
unfolding stream_response read_chunks accept_chunk handle_events handle_event process_router_event
    process_choice add_fragments add_fragment and_then get field_of as_str as_u64 parse_usize
    parse_digits first_item at_zero finish_reason_of call_at put_call finish finish_response
    last_events conclude_response complete_calls complete_call contains local_name lookup text_eq
    push push_text push_parts push_part push_line split_lines cons_line strip_last process_line
    strip_prefix utf8_prefix scan scan_byte take_byte continue_character begin_character lead
    starts_with
call_shown = refl
