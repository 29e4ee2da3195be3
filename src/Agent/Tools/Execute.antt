-- ===== src/Agent/Tools/Execute.antt =====
-- `ToolExecutor::execute` of tools.rs and the handlers of its tools.
use feather_mesh.Prelude.{
  Bool, true, false, ◌&&◌, ◌||◌, not, Option, none, some, List, [], ◌∷◌, Text, codes, text_eq, any,
  all, filter, length, leb, ltb, lookup, contains, Result, ok, err, if◌then◌else◌,
}
use feather_mesh.Std.Str.{is_blank}
use feather_mesh.Agent.Json.{byte_length}
use feather_mesh.Agent.Json.{Json, Fields, null, object, string, no_fields, field}
use feather_mesh.Agent.Provider.{ProviderToolCall}
use feather_mesh.Agent.Tools.{
  ToolExecution, clarification, read, awaiting_review, draft_patch, rejected, ConfirmableOperation,
  publication, stage, withdrawal, ToolExecutor, ProductArgs, Core, same_pair, review_summary,
}

abbrev pub bad_arguments : ToolExecution
bad_arguments = rejected (codes "bad_arguments")

-- What the core answers, or its error's kind.
abbrev pub answered : Text → Result Text Json → ToolExecution
answered tool (ok result) = read tool result
answered tool (err kind) = rejected kind

unfoldable pub clarify : Option (Text × List Text) → ToolExecution
clarify none = bad_arguments
clarify (some (question, choices)) =
    if not (is_blank question)
      && leb (byte_length question) 1024
      && leb (length choices) 10
      && all (λ c. leb (byte_length c) 256) choices
    then clarification question choices
    else bad_arguments

unfoldable pub no_arguments : Json → Bool
no_arguments null = true
no_arguments (object no_fields) = true
no_arguments arguments = false

unfoldable pub without_arguments : Text → Json → Result Text Json → ToolExecution
unfolding no_arguments
without_arguments tool arguments result =
    if no_arguments arguments then answered tool result else bad_arguments

abbrev pub inspection_name : Bool → Text
inspection_name resolving = if resolving then codes "product.resolve" else codes "product.inspect"

-- The consent is used up, whatever comes of the call.
unfoldable pub product_inspect :
    Core → Bool → Option ProductArgs → ToolExecutor → ToolExecutor × ToolExecution
unfolding same_pair
product_inspect core resolving none e = (e, bad_arguments)
product_inspect core resolving (some args) e =
    let wanted : Text × Text = (args.reference, args.version) in
    let result = answered (inspection_name resolving) (
      core.resolve e.project_root args.reference args.version
        (resolving && args.verify_integrity)) in
    if args.verify_integrity
    then (if any (same_pair wanted) e.integrity_consent
        then (
          record e {
            integrity_consent = filter (λ pair. not (same_pair wanted pair)) e.integrity_consent;
          },
          result,
        )
        else (e, rejected (codes "integrity_consent_required")))
    else (e, result)

abbrev pub help_topics : List Text
help_topics = codes "resolve" ∷ codes "stage" ∷ codes "publish" ∷ codes "withdraw" ∷ []

abbrev pub excerpt_of : Text → Text
excerpt_of topic =
    if text_eq topic (codes "resolve")
    then codes
        "Resolve requires an explicit product version and performs no copy. Use the SDK or CLI example from the local UI for direct reads."
    else if text_eq topic (codes "stage")
    then codes
        "Staging copies only the pinned registered inventory after a local review. It cannot be confirmed by a model tool argument."
    else if text_eq topic (codes "publish")
    then codes
        "Publication validates producer-supplied scientific, policy, lineage, contact, and inventory metadata before a manifest commit."
    else codes
        "Only the selected project's local namespace can withdraw an active version; provider bytes remain intact."

unfoldable pub help_lookup : Option Text → ToolExecution
unfolding text_eq
help_lookup none = bad_arguments
help_lookup (some topic) =
    if any (text_eq topic) help_topics
    then read (codes "help.lookup") (
        object (
          field (codes "excerpt") (string (excerpt_of topic))
            (field (codes "topic") (string topic) no_fields)))
    else rejected (codes "unknown_help_topic")

abbrev pub editable_fields : List Text
editable_fields =
    codes "name"
    ∷ codes "version"
    ∷ codes "description"
    ∷ codes "intended_use"
    ∷ codes "limitations"
    ∷ codes "owner_team"
    ∷ codes "producer"
    ∷ codes "contact"
    ∷ codes "usage_policy"
    ∷ codes "classification"
    ∷ codes "quality"
    ∷ codes "lineage"
    ∷ codes "table"
    ∷ codes "raster"
    ∷ []

-- `draft[key] = value`
unfoldable pub set_field : Text → Json → Fields → Fields
unfolding text_eq
set_field key v no_fields = field key v no_fields
set_field key v (field j w rest) =
    let others = set_field key v rest in
    if text_eq j key then field key v rest else field j w others

unfoldable pub apply_patch : Fields → Fields → Option Fields
unfolding set_field text_eq
apply_patch no_fields draft = some draft
apply_patch (field key v rest) draft =
    let patched = apply_patch rest (set_field key v draft) in
    if any (text_eq key) editable_fields then patched else none

abbrev pub patched_draft : Text → Option Fields → ToolExecution
patched_draft handle none = bad_arguments
patched_draft handle (some draft) = draft_patch handle draft

unfoldable pub publication_validate : Option (Text × Fields) → ToolExecutor → ToolExecution
unfolding apply_patch lookup
publication_validate none e = bad_arguments
publication_validate (some (handle, patch)) e = elim (lookup handle e.drafts) [
  | none ↦ rejected (codes "unknown_handle")
  | some draft ↦ patched_draft handle (apply_patch patch draft)
]

unfoldable pub matches_tool : Text → ConfirmableOperation → Bool
unfolding text_eq
matches_tool tool (publication p) = text_eq tool (codes "publication.publish")
matches_tool tool (stage p) = text_eq tool (codes "product.stage")
matches_tool tool (withdrawal p) = text_eq tool (codes "product.withdraw")

unfoldable pub review_existing : Text → Option Text → ToolExecutor → ToolExecution
unfolding matches_tool review_summary lookup
review_existing tool none e = bad_arguments
review_existing tool (some handle) e = elim (lookup handle e.prepared) [
  | none ↦ rejected (codes "unknown_handle")
  | some operation ↦
      if matches_tool tool operation
      then awaiting_review tool handle (review_summary operation)
      else rejected (codes "handle_kind_mismatch")
]

-- The dispatch on the tool's name.
unfoldable pub dispatch : Core → ProviderToolCall → ToolExecutor → ToolExecutor × ToolExecution
unfolding clarify product_inspect without_arguments help_lookup publication_validate review_existing
    text_eq
dispatch core call e =
    if text_eq call.name (codes "user.clarify")
    then (e, clarify (core.decode_clarify call.arguments))
    else if text_eq call.name (codes "catalog.search")
    then (e, answered call.name (core.search e.project_root call.arguments))
    else if text_eq call.name (codes "product.inspect")
    then product_inspect core false (core.decode_product call.arguments) e
    else if text_eq call.name (codes "product.resolve")
    then product_inspect core true (core.decode_product call.arguments) e
    else if text_eq call.name (codes "peers.status")
    then (e, without_arguments call.name call.arguments (core.peers_status e.project_root))
    else if text_eq call.name (codes "catalog.refresh")
    then (e, without_arguments call.name call.arguments (core.catalog_refresh e.project_root))
    else if text_eq call.name (codes "help.lookup")
    then (e, help_lookup (core.decode_topic call.arguments))
    else if text_eq call.name (codes "publication.validate")
    then (e, publication_validate (core.decode_patch call.arguments) e)
    else if text_eq call.name (codes "publication.publish")
    then (e, review_existing (codes "publication.publish") (core.decode_handle call.arguments) e)
    else if text_eq call.name (codes "product.stage")
    then (e, review_existing (codes "product.stage") (core.decode_handle call.arguments) e)
    else if text_eq call.name (codes "product.withdraw")
    then (e, review_existing (codes "product.withdraw") (core.decode_handle call.arguments) e)
    else (e, rejected (codes "unknown_tool"))

unfoldable pub execute : Core → ProviderToolCall → ToolExecutor → ToolExecutor × ToolExecution
unfolding dispatch contains
execute core call e =
    if leb 256 (length e.provider_call_ids)
    then (e, rejected (codes "session_limit"))
    else if ltb 256 (byte_length call.id) || ltb 65536 (core.json_length call.arguments)
    then (e, bad_arguments)
    else if contains call.id e.provider_call_ids
    then (e, rejected (codes "duplicate_provider_call"))
    else dispatch core call (record e { provider_call_ids = call.id ∷ e.provider_call_ids })
