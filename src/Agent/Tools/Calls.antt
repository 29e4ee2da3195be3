-- ===== src/Agent/Tools/Calls.antt =====
-- The calls that an executor has handled: how often, and how many.
use feather_mesh.Prelude.{
  [], ap, subst, ◌≤◌, ◌≡◌, refl, sym, ◌∙◌, ◌⊎◌, inl, inr, Bool, true, false, ◌||◌, Option, none,
  some, List, ◌∷◌, arith, Text, codes, text_eq, text_eq_refl, any, length, leb, ltb, contains,
  Bool-cases, if◌then◌else◌,
}
use mathlib.Core.Bool.{true≢false}
use feather_mesh.Agent.Json.{Fields, byte_length}
use feather_mesh.Agent.Provider.{ProviderToolCall}
use feather_mesh.Agent.Tools.{
  ToolExecution, rejected, ToolExecutor, ProductArgs, Core, same_pair, ConfirmableOperation,
  register_operation, register_draft, insert_prepared, grant_integrity_consent,
  take_prepared_operation, invalidate_handles,
}
use feather_mesh.Agent.Tools.Execute.{product_inspect, dispatch, execute}

-- The handled calls stay as they are.
record KeepsCalls (e : ToolExecutor) (answer : ToolExecutor × ToolExecution) : Type 0 where
  kept : answer.0.provider_call_ids ≡ e.provider_call_ids

same : (e : ToolExecutor) (x : ToolExecution) → KeepsCalls e (e, x)
same e x = record { kept = refl }

if_both : {A : Type 0} (P : A → Type 0) (b : Bool) {x y : A} → P x → P y → P (if b then x else y)
if_both P true h k = h
if_both P false h k = k

inspect_keeps :
    (core : Core) (resolving : Bool) (o : Option ProductArgs) (e : ToolExecutor)
    → KeepsCalls e (product_inspect core resolving o e)
unfolding product_inspect
inspect_keeps core resolving none e = same e _
inspect_keeps core resolving (some args) e =
    if_both (KeepsCalls e) args.verify_integrity
      (if_both (KeepsCalls e) (any (same_pair (args.reference, args.version)) e.integrity_consent)
        (record { kept = refl }) (same e _))
      (same e _)

dispatch_keeps :
    (core : Core) (call : ProviderToolCall) (e : ToolExecutor) → KeepsCalls e (dispatch core call e)
unfolding dispatch
dispatch_keeps core call e = either (codes "user.clarify") (same e _) (
    either (codes "catalog.search") (same e _) (
      either (codes "product.inspect")
        (inspect_keeps core false (core.decode_product call.arguments) e)
        (either (codes "product.resolve")
          (inspect_keeps core true (core.decode_product call.arguments) e)
          (either (codes "peers.status") (same e _) (
            either (codes "catalog.refresh") (same e _) (
              either (codes "help.lookup") (same e _) (
                either (codes "publication.validate") (same e _) (
                  either (codes "publication.publish") (same e _) (
                    either (codes "product.stage") (same e _)
                      (either (codes "product.withdraw") (same e _) (same e _)))))))))))
  where
    either :
        (name : Text) {x y : ToolExecutor × ToolExecution}
        → KeepsCalls e x
        → KeepsCalls e y
        → KeepsCalls e (if text_eq call.name name then x else y)
    either name h k = if_both (KeepsCalls e) (text_eq call.name name) h k

-- A call is refused and changes nothing.
abbrev pub IsRejected : ToolExecutor → ToolExecutor × ToolExecution → Type 0
IsRejected e answer = (kind : Text) × (answer ≡ (e, rejected kind))

-- A call is accepted once, as the one more that is handled.
pub record IsHandled (call : ProviderToolCall) (e : ToolExecutor)
    (answer : ToolExecutor × ToolExecution) : Type 0 where
  pub room : length e.provider_call_ids ≤ 255
  pub fresh : contains call.id e.provider_call_ids ≡ false
  pub remembered : answer.0.provider_call_ids ≡ call.id ∷ e.provider_call_ids

execute_once :
    (core : Core) (call : ProviderToolCall) (e : ToolExecutor)
    → IsRejected e (execute core call e) ⊎ IsHandled call e (execute core call e)
unfolding execute
execute_once core call e = elim (Bool-cases (leb 256 (length e.provider_call_ids))) [
  | inl full ↦ rw full (inl (codes "session_limit", refl))
  | inr room ↦
      elim (Bool-cases
        (ltb 256 (byte_length call.id) || ltb 65536 (core.json_length call.arguments))) [
          | inl big ↦ rw (room, big) (inl (codes "bad_arguments", refl))
          | inr small ↦ elim (Bool-cases (contains call.id e.provider_call_ids)) [
            | inl again ↦ rw (room, small, again) (inl (codes "duplicate_provider_call", refl))
            | inr fresh ↦
                rw (room, small, fresh)
                  (inr (record {
                    room = ground (arith, room);
                    fresh = fresh;
                    remembered =
                        (dispatch_keeps core call
                          (record e { provider_call_ids = call.id ∷ e.provider_call_ids })).kept;
                  }))
          ]
        ]
]

-- What may happen between two calls, short of a reset of the project.
pub data Use : Type 0 where
  called : Core → ProviderToolCall → Use
  registered : ConfirmableOperation → Use
  drafted : Text → Fields → Use
  inserted : ConfirmableOperation → Use
  consented : Text → Text → Use
  taken : Text → Use
  invalidated : Use

unfoldable pub use_once : Use → ToolExecutor → ToolExecutor
unfolding execute register_operation register_draft insert_prepared grant_integrity_consent
    take_prepared_operation invalidate_handles
use_once (called core call) e = (execute core call e).0
use_once (registered operation) e = (register_operation operation e).0
use_once (drafted handle draft) e = register_draft handle draft e
use_once (inserted operation) e = insert_prepared operation e
use_once (consented reference version) e = grant_integrity_consent reference version e
use_once (taken id) e = (take_prepared_operation id e).0
use_once invalidated e = invalidate_handles e

unfoldable pub use_all : List Use → ToolExecutor → ToolExecutor
unfolding use_once
use_all [] e = e
use_all (u ∷ us) e = use_all us (use_once u e)

-- The call's id is among the handled ones.
record Remembers (id : Text) (e : ToolExecutor) : Type 0 where
  there : contains id e.provider_call_ids ≡ true

contains-cons :
    (id j : Text) (ids : List Text) → contains id ids ≡ true → contains id (j ∷ ids) ≡ true
unfolding contains
contains-cons id j ids h = ground (arith, h)

contains_first : (id : Text) (ids : List Text) → contains id (id ∷ ids) ≡ true
unfolding contains
contains_first id ids = rw (text_eq_refl id) refl

execute-Remembers :
    (core : Core) (call : ProviderToolCall) (id : Text) (e : ToolExecutor)
    → Remembers id e
    → Remembers id (execute core call e).0
execute-Remembers core call id e r = elim (execute_once core call e) [
  | inl refused ↦
      subst (Remembers id) (sym (ap (λ (a : ToolExecutor × ToolExecution). a.0) refused.1)) r
  | inr handled ↦ record {
    there =
        ap (contains id) handled.remembered ∙ contains-cons id call.id e.provider_call_ids r.there;
  }
]

use_once-Remembers :
    (u : Use) (id : Text) (e : ToolExecutor) → Remembers id e → Remembers id (use_once u e)
unfolding use_once register_operation register_draft insert_prepared grant_integrity_consent
    take_prepared_operation invalidate_handles
use_once-Remembers (called core call) id e r = execute-Remembers core call id e r
use_once-Remembers (registered operation) id e r = record { there = r.there }
use_once-Remembers (drafted handle draft) id e r = record { there = r.there }
use_once-Remembers (inserted operation) id e r = record { there = r.there }
use_once-Remembers (consented reference version) id e r =
    if_both (Remembers id) (any (same_pair (reference, version)) e.integrity_consent) r
      (record { there = r.there })
use_once-Remembers (taken j) id e r = record { there = r.there }
use_once-Remembers invalidated id e r = record { there = r.there }

use_all-Remembers :
    (us : List Use) (id : Text) (e : ToolExecutor) → Remembers id e → Remembers id (use_all us e)
unfolding use_all
use_all-Remembers [] id e r = r
use_all-Remembers (u ∷ us) id e r =
    use_all-Remembers us id (use_once u e) (use_once-Remembers u id e r)

Remembers-IsRejected :
    (core : Core) (call : ProviderToolCall) (e : ToolExecutor)
    → Remembers call.id e
    → IsRejected e (execute core call e)
Remembers-IsRejected core call e r = elim (execute_once core call e) [
  | inl refused ↦ refused
  | inr again ↦ absurd (true≢false (sym r.there ∙ again.fresh))
]

-- A call is refused without a change, or it is handled as one of at most 256; then, whatever else is called,
-- registered, consented, taken or invalidated in between, short of a reset of the project, every later call
-- under its id is refused without a change.
pub execute-at_most_once :
    (core : Core) (call : ProviderToolCall) (e : ToolExecutor) (between : List Use) (core' : Core)
    (later : ProviderToolCall)
    → later.id ≡ call.id
    → IsRejected e (execute core call e)
      ⊎ (IsHandled call e (execute core call e)
          × IsRejected
              (use_all between (execute core call e).0)
              (execute core' later (use_all between (execute core call e).0)))
execute-at_most_once core call e between core' later same_id = elim (execute_once core call e) [
  | inl refused ↦ inl refused
  | inr handled ↦
      let first : Remembers call.id (execute core call e).0 = record {
        there =
            ap (contains call.id) handled.remembered ∙ contains_first call.id e.provider_call_ids;
      } in
      let kept = use_all-Remembers between call.id (execute core call e).0 first in
      let last = use_all between (execute core call e).0 in
      inr (
        handled,
        Remembers-IsRejected core' later last (subst (λ id. Remembers id last) (sym same_id) kept),
      )
]
