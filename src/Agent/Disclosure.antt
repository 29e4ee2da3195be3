-- ===== src/Agent/Disclosure.antt =====
-- disclosure.rs: what of a request leaves the machine. The serialized request is the record `Wire`.
pub mod Allowed
use feather_mesh.Prelude.{
  concat, ℕ, zero, suc, ◌-◌, Bool, true, false, ◌&&◌, ◌||◌, not, Option, none, some, List, [], ◌∷◌,
  ◌++◌, map, Text, codes, text_eq, starts_with, is_empty, any, filter, length, take, leb, ltb,
  Result, ok, err, ok_or, guard, ◌>>=◌, ◌>>◌, ◌==◌, if◌then◌else◌,
}
use feather_mesh.Std.Char.{is_whitespace}
use feather_mesh.Std.Str.{trim, contains_char, contains_text}
use feather_mesh.Agent.Json.{
  Json, Items, Fields, null, bool, number, string, array, object, no_items, item, no_fields, field,
  as_str,
}
use feather_mesh.Agent.Provider.{
  ProviderToolCall, ModelMessage, ModelRequest, ProviderError, configuration, protocol, too_large,
}
use feather_mesh.Agent.Profile.{AgentProfile}

-- `str::replace`: `skip` is what is left of the last match.
unfoldable pub replace_from : Text → Text → ℕ → Text → Text
replace_from pat by skip [] = []
replace_from pat by (suc n) (c ∷ s) = replace_from pat by n s
replace_from pat by zero (c ∷ s) =
    let matched = replace_from pat by (length pat - 1) s in
    let rest = replace_from pat by zero s in
    if starts_with pat (c ∷ s) then by ++ matched else c ∷ rest

abbrev pub replace : Text → Text → Text → Text
replace pat by s = replace_from pat by 0 s

-- `str::split_inclusive(char::is_whitespace)`
unfoldable pub cons_part : ℕ → List Text → List Text
cons_part c [] = (c ∷ []) ∷ []
cons_part c (p ∷ ps) = (c ∷ p) ∷ ps

unfoldable pub split_inclusive : Text → List Text
unfolding cons_part is_whitespace
split_inclusive [] = []
split_inclusive (c ∷ s) =
    let rest = split_inclusive s in if is_whitespace c then (c ∷ []) ∷ rest else cons_part c rest

abbrev pub is_opening : ℕ → Bool
is_opening c = c == b'"' || c == b'\'' || c == b'(' || c == b'[' || c == b'{'

unfoldable pub trim_openings : Text → Text
trim_openings [] = []
trim_openings (c ∷ s) = let rest = trim_openings s in if is_opening c then rest else c ∷ s

-- The trailing white space of a part.
unfoldable pub suffix : Text → Text
unfolding is_whitespace
suffix [] = []
suffix (c ∷ s) = let rest = suffix s in if is_empty (trim (c ∷ s)) then c ∷ s else rest

-- `char::is_control`: the Unicode category Cc.
unfoldable pub is_control : ℕ → Bool
is_control c = leb c 0x1f || leb 0x7f c && leb c 0x9f

unfoldable pub has_path : Text → Bool
has_path s =
    contains_char b'/' s
    && not (starts_with (codes "product://") s)
    && not (starts_with (codes "feam.") s)

unfoldable pub is_sensitive : Text → Bool
unfolding has_path contains_text starts_with
is_sensitive s =
    has_path s
    || starts_with (codes "~") s
    || contains_text (codes ":\\") s
    || starts_with (codes "sk-") s
    || starts_with (codes "Bearer") s
    || contains_text (codes "API_KEY=") s

unfoldable pub redact_part : Text → Text
unfolding is_sensitive trim_openings trim suffix is_control is_whitespace
redact_part part =
    if is_sensitive (trim_openings (trim part))
    then codes "[redacted]" ++ suffix part
    else filter (λ c. not (is_control c) || is_whitespace c) part

unfoldable pub hide_secret : Text → Option Text → Text
unfolding replace_from
hide_secret text none = text
hide_secret text (some s) = if is_empty s then text else replace s (codes "[credential]") text

unfoldable pub redact : Text → Option Text → Text
unfolding hide_secret split_inclusive redact_part
redact text secret = concat (map redact_part (split_inclusive (hide_secret text secret)))

abbrev pub structural : List Text
structural =
    codes "operations"
    ∷ codes "drafts"
    ∷ codes "summary"
    ∷ codes "overwrite"
    ∷ codes "question"
    ∷ codes "choices"
    ∷ codes "protocol"
    ∷ codes "tool"
    ∷ codes "status"
    ∷ codes "result"
    ∷ codes "error"
    ∷ codes "kind"
    ∷ codes "operation_id"
    ∷ codes "handle"
    ∷ codes "reference"
    ∷ codes "version"
    ∷ codes "manifest_revision"
    ∷ codes "expected_manifest_revision"
    ∷ codes "data_kind"
    ∷ codes "data_format"
    ∷ codes "quality"
    ∷ codes "classification"
    ∷ codes "entries"
    ∷ codes "coverage"
    ∷ codes "namespace"
    ∷ codes "available"
    ∷ codes "revision"
    ∷ codes "observed_at"
    ∷ codes "freshness"
    ∷ codes "integrity_verified"
    ∷ codes "asset_count"
    ∷ codes "estimated_asset_bytes"
    ∷ codes "assets"
    ∷ codes "id"
    ∷ codes "role"
    ∷ codes "media_type"
    ∷ codes "size"
    ∷ codes "next_cursor"
    ∷ codes "snapshot_fingerprint"
    ∷ codes "result_limit"
    ∷ codes "truncated"
    ∷ codes "topic"
    ∷ codes "excerpt"
    ∷ codes "state"
    ∷ codes "completed_at"
    ∷ codes "input_tokens"
    ∷ codes "output_tokens"
    ∷ codes "cost_usd"
    ∷ codes "missing_fields"
    ∷ []

unfoldable pub has_key : List Text → Text → Bool
unfolding text_eq
has_key keys key = any (text_eq key) keys

unfoldable pub is_allowed : AgentProfile → Text → Bool
unfolding has_key
is_allowed profile key = has_key structural key || has_key profile.allowed_metadata_fields key

module _ (profile : AgentProfile) where
  -- Of an array the first 100 items are kept: `n` counts those that are left to keep.
  unfoldable mutual
    unfolding redact is_allowed

    pub tool_summary : Json → Json
    tool_summary (object fields) = object (summary_fields fields)
    tool_summary (array vs) = array (summary_items 100 vs)
    tool_summary (string text) = string (redact (take 1024 text) none)
    tool_summary null = null
    tool_summary (bool b) = bool b
    tool_summary (number n) = number n

    pub summary_items : ℕ → Items → Items
    summary_items n no_items = no_items
    summary_items zero (item v vs) = no_items
    summary_items (suc n) (item v vs) = item (tool_summary v) (summary_items n vs)

    pub summary_fields : Fields → Fields
    summary_fields no_fields = no_fields
    summary_fields (field key v rest) =
        let kept = summary_fields rest in
        let summary = tool_summary v in
        if is_allowed profile key then field key summary kept else kept

module _ (secret : Option Text) where
  unfoldable mutual
    unfolding redact

    pub scrub_value : Json → Json
    scrub_value (string s) = string (redact s secret)
    scrub_value (array vs) = array (scrub_items vs)
    scrub_value (object fields) = object (scrub_fields fields)
    scrub_value null = null
    scrub_value (bool b) = bool b
    scrub_value (number n) = number n

    pub scrub_items : Items → Items
    scrub_items no_items = no_items
    scrub_items (item v vs) = item (scrub_value v) (scrub_items vs)

    pub scrub_fields : Fields → Fields
    scrub_fields no_fields = no_fields
    scrub_fields (field key v rest) = field key (scrub_value v) (scrub_fields rest)

-- serde_json on values and on requests, and `chars().count()` of the bytes' lossy text.
pub record Wire : Type 0 where
  pub to_text : Json → Text
  pub from_text : Text → Option Json
  pub to_bytes : ModelRequest → Option (List ℕ)
  pub char_count : List ℕ → ℕ

-- A tool's content is JSON in a text, or else taken as it is.
unfoldable pub tool_value : Wire → Json → Json
unfolding as_str
tool_value w content = elim (as_str content) [
  | none ↦ content
  | some s ↦ elim (w.from_text s) [ none ↦ content | some v ↦ v ]
]

abbrev pub hide_in : Option Text → Json → Json
hide_in none content = content
hide_in (some key) (string s) = string (hide_secret s (some key))
hide_in (some key) content = content

abbrev pub redact_content : Option Text → Json → Json
redact_content secret (string s) = string (redact s secret)
redact_content secret content = content

unfoldable pub outbound_content : Wire → AgentProfile → Option Text → Text → Json → Json
unfolding hide_secret redact tool_summary scrub_value tool_value text_eq
outbound_content w profile secret role content =
    if text_eq role (codes "tool")
    then string (w.to_text (scrub_value secret (tool_summary profile (tool_value w content))))
    else if text_eq role (codes "system")
    then hide_in secret content
    else redact_content secret content

unfoldable pub scrub_call : Option Text → ProviderToolCall → ProviderToolCall
unfolding scrub_value
scrub_call secret call = record call { arguments = scrub_value secret call.arguments }

unfoldable pub scrub_calls :
    Option Text → Option (List ProviderToolCall) → Option (List ProviderToolCall)
unfolding scrub_call
scrub_calls secret none = none
scrub_calls secret (some calls) = some (map (scrub_call secret) calls)

unfoldable pub outbound_message :
    Wire → AgentProfile → Option Text → ModelMessage → Result ProviderError ModelMessage
unfolding outbound_content scrub_calls text_eq
outbound_message w profile secret m = do
  guard (not (text_eq m.role (codes "user") && not profile.allow_user_text))
      (configuration (codes "user text disclosure is disabled"))
  ok (record m {
    content = outbound_content w profile secret m.role m.content;
    tool_calls = scrub_calls secret m.tool_calls;
  })

unfoldable pub outbound_messages :
    Wire → AgentProfile → Option Text → List ModelMessage → Result ProviderError (List ModelMessage)
unfolding outbound_message
outbound_messages w profile secret [] = ok []
outbound_messages w profile secret (m ∷ rest) = do
  sent ← outbound_message w profile secret m
  others ← outbound_messages w profile secret rest
  ok (sent ∷ others)

unfoldable pub outbound :
    Wire → ModelRequest → AgentProfile → Option Text → Result ProviderError ModelRequest
unfolding outbound_messages
outbound w request profile secret = do
  messages ← outbound_messages w profile secret request.messages
  let sent = record request { messages = messages }
  bytes ← ok_or (w.to_bytes sent) (protocol (codes "request serialization failed"))
  guard
      (not (
        ltb profile.max_request_bytes (length bytes)
        || ltb profile.max_context_chars (w.char_count bytes)))
      too_large
  ok sent
