-- ===== src/Agent/Tools.antt =====
-- `ToolExecutor` of tools.rs. Messages of refusals are not modelled; a draft is an object's fields.
-- serde's decoders and the calls of the core that read or write the project are the record `Core`.
pub mod Execute
pub mod Authority
pub mod Calls
use feather_mesh.Prelude.{
  ℕ, Bool, true, false, ◌&&◌, ◌||◌, not, Option, none, some, List, [], ◌∷◌, ◌++◌, map, Text, codes,
  text_eq, is_empty, any, all, filter, length, text_less, leb, ltb, lookup, contains, Result, ok,
  err, guard, ◌>>=◌, ◌>>◌, ◌==◌, if◌then◌else◌,
}
use feather_mesh.Std.Str.{is_blank}
use feather_mesh.Std.Decimal.{decimal}
use feather_mesh.Peer.Token.{reference}
use feather_mesh.Interactive.{PreparedPublication, PreparedWithdrawal, PreparedStage}
use feather_mesh.Agent.Json.{
  Json, Fields, null, bool, number, string, array, object, no_items, item, no_fields, field,
}
use feather_mesh.Agent.Json.{Items}
use feather_mesh.Agent.Provider.{ProviderToolCall}

pub data ToolExecution : Type 0 where
  clarification : Text → List Text → ToolExecution
  read : Text → Json → ToolExecution
  awaiting_review : Text → Text → Json → ToolExecution
  draft_patch : Text → Fields → ToolExecution
  rejected : Text → ToolExecution

pub data ConfirmableOperation : Type 0 where
  publication : PreparedPublication → ConfirmableOperation
  stage : PreparedStage → ConfirmableOperation
  withdrawal : PreparedWithdrawal → ConfirmableOperation

pub record ToolExecutor : Type 0 where
  pub project_root : Text
  pub prepared : List (Text × ConfirmableOperation)
  pub provider_call_ids : List Text
  pub drafts : List (Text × Fields)
  pub integrity_consent : List (Text × Text)

pub record ProductArgs : Type 0 where
  pub reference : Text
  pub version : Text
  pub verify_integrity : Bool

pub record Core : Type 0 where
  pub json_length : Json → ℕ
  pub decode_clarify : Json → Option (Text × List Text)
  pub decode_product : Json → Option ProductArgs
  pub decode_topic : Json → Option Text
  pub decode_handle : Json → Option Text
  pub decode_patch : Json → Option (Text × Fields)
  -- Each is the answer's JSON, or the error's kind.
  pub search : Text → Json → Result Text Json
  pub peers_status : Text → Result Text Json
  pub catalog_refresh : Text → Result Text Json
  pub resolve : Text → Text → Text → Bool → Result Text Json

-- `BTreeMap::insert`, `remove` and `keys`: the entries stand in the order of the keys.
unfoldable pub put : {V : Type 0} → Text → V → List (Text × V) → List (Text × V)
unfolding text_less text_eq
put k v [] = (k, v) ∷ []
put k v ((j, w) ∷ m) =
    let rest = put k v m in
    if text_eq j k then (k, v) ∷ m else if text_less k j then (k, v) ∷ (j, w) ∷ m else (j, w) ∷ rest

unfoldable pub remove : {V : Type 0} → Text → List (Text × V) → List (Text × V)
unfolding text_eq
remove k m = filter (λ entry. not (text_eq entry.0 k)) m

unfoldable pub same_pair : Text × Text → Text × Text → Bool
unfolding text_eq
same_pair a b = text_eq a.0 b.0 && text_eq a.1 b.1

abbrev pub operation_id : ConfirmableOperation → Text
operation_id (publication p) = p.operation_id
operation_id (stage p) = p.operation_id
operation_id (withdrawal p) = p.operation_id

abbrev pub new_executor : Text → ToolExecutor
new_executor root = record {
  project_root = root;
  prepared = [];
  provider_call_ids = [];
  drafts = [];
  integrity_consent = [];
}

-- `reset_project`
abbrev pub reset_project : Text → ToolExecutor → ToolExecutor
reset_project root e = new_executor root

unfoldable pub invalidate_handles : ToolExecutor → ToolExecutor
invalidate_handles e = record e { prepared = []; drafts = []; integrity_consent = [] }

unfoldable pub register_operation : ConfirmableOperation → ToolExecutor → ToolExecutor × Text
unfolding put
register_operation operation e =
    let kept : List (Text × ConfirmableOperation) =
      if leb 16 (length e.prepared) then [] else e.prepared in
    (record e { prepared = put (operation_id operation) operation kept }, operation_id operation)

unfoldable pub register_draft : Text → Fields → ToolExecutor → ToolExecutor
unfolding put
register_draft handle draft e =
    let kept : List (Text × Fields) = if leb 16 (length e.drafts) then [] else e.drafts in
    record e { drafts = put handle draft kept }

-- The `prepare_*_for_review` of the user interface, given what the core has prepared.
unfoldable pub insert_prepared : ConfirmableOperation → ToolExecutor → ToolExecutor
unfolding put
insert_prepared operation e = record e {
  prepared = put (operation_id operation) operation e.prepared;
}

unfoldable pub grant_integrity_consent : Text → Text → ToolExecutor → ToolExecutor
unfolding same_pair
grant_integrity_consent reference version e =
    if any (same_pair (reference, version)) e.integrity_consent
    then e
    else record e { integrity_consent = (reference, version) ∷ e.integrity_consent }

unfoldable pub take_prepared_operation :
    Text → ToolExecutor → ToolExecutor × Option ConfirmableOperation
unfolding remove lookup
take_prepared_operation id e = (record e { prepared = remove id e.prepared }, lookup id e.prepared)

-- serde_json sorts the keys of an object that `json!` makes.
unfoldable pub review_summary : ConfirmableOperation → Json
unfolding reference decimal
review_summary (publication p) = object (
    field (codes "estimated_asset_bytes") (number (decimal p.estimated_asset_bytes)) (
      field (codes "expected_manifest_revision") (number (decimal p.expected_manifest_revision)) (
        field (codes "operation_id") (string p.operation_id) (
          field (codes "reference") (string (reference p.request.namespace p.request.product_id)) (
            field (codes "status") (string (codes "locally_validated_awaiting_review")) (
              field (codes "tool") (string (codes "publication.publish"))
                (field (codes "version") (string p.request.version) no_fields)))))))
review_summary (stage p) = object (
    field (codes "destination") (string (codes "selected locally; inspect in the review screen")) (
      field (codes "estimated_asset_bytes") (number (decimal p.estimated_asset_bytes)) (
        field (codes "operation_id") (string p.operation_id) (
          field (codes "overwrite") (bool p.overwrite) (
            field (codes "reference") (string p.reference) (
              field (codes "status") (string (codes "locally_prepared_awaiting_review")) (
                field (codes "tool") (string (codes "product.stage"))
                  (field (codes "version") (string p.version) no_fields))))))))
review_summary (withdrawal p) = object (
    field (codes "operation_id") (string p.operation_id) (
      field (codes "reason") (string p.reason) (
        field (codes "reference") (string p.reference) (
          field (codes "status") (string (codes "locally_prepared_awaiting_review")) (
            field (codes "tool") (string (codes "product.withdraw"))
              (field (codes "version") (string p.version) no_fields))))))

abbrev pub operation_items : List (Text × ConfirmableOperation) → Items
operation_items [] = no_items
operation_items ((id, operation) ∷ rest) =
    item
      (object (
        field (codes "handle") (string id)
          (field (codes "summary") (review_summary operation) no_fields)))
      (operation_items rest)

abbrev pub key_items : List (Text × Fields) → Items
key_items [] = no_items
key_items ((key, draft) ∷ rest) = item (string key) (key_items rest)

unfoldable pub local_handles : ToolExecutor → Json
local_handles e = object (
    field (codes "drafts") (array (key_items e.drafts))
      (field (codes "operations") (array (operation_items e.prepared)) no_fields))

-- `ToolExecution::model_summary`
abbrev pub protocol_version : Json
protocol_version = string (codes "feam.agent.tools.v1")

abbrev pub text_items : List Text → Items
text_items [] = no_items
text_items (s ∷ rest) = item (string s) (text_items rest)

unfoldable pub model_summary : ToolExecution → Json
model_summary (clarification question choices) = object (
    field (codes "choices") (array (text_items choices)) (
      field (codes "question") (string question)
        (field (codes "status") (string (codes "clarification_required")) no_fields)))
model_summary (read tool result) = object (
    field (codes "protocol") protocol_version (
      field (codes "result") result (
        field (codes "status") (string (codes "ok"))
          (field (codes "tool") (string tool) no_fields))))
model_summary (awaiting_review tool id review) = object (
    field (codes "operation_id") (string id) (
      field (codes "protocol") protocol_version (
        field (codes "status") (string (codes "awaiting_user_review"))
          (field (codes "tool") (string tool) no_fields))))
model_summary (draft_patch handle draft) = object (
    field (codes "handle") (string handle)
      (field (codes "status") (string (codes "draft_patch_requires_local_validation")) no_fields))
model_summary (rejected kind) = object (
    field (codes "error") (object (field (codes "kind") (string kind) no_fields)) (
      field (codes "protocol") protocol_version
        (field (codes "status") (string (codes "rejected")) no_fields)))
