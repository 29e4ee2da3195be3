-- ===== src/Agent/Tools/Authority.antt =====
-- What a model's call of a tool can reach: the local handles, and the consent to read every asset.
use feather_mesh.Prelude.{
  ◌≡◌, refl, sym, ◌∙◌, text_eq_iff, inl, inr, Bool, true, false, ◌&&◌, ◌||◌, not, Option, none,
  some, List, [], ◌∷◌, arith, Text, codes, all, text_eq, any, filter, length, leb, ltb, lookup,
  contains, Bool-cases, Option-cases, Result, ok, err, if◌then◌else◌,
}
use feather_mesh.Std.Str.{is_blank}
use feather_mesh.Agent.Json.{Json, Fields, byte_length}
use feather_mesh.Agent.Provider.{ProviderToolCall}
use feather_mesh.Agent.Tools.{
  ToolExecution, clarification, read, awaiting_review, draft_patch, rejected, ConfirmableOperation,
  publication, stage, withdrawal, ToolExecutor, ProductArgs, Core, same_pair, review_summary,
}
use feather_mesh.Agent.Tools.Execute.{
  answered, clarify, no_arguments, without_arguments, product_inspect, help_lookup,
  publication_validate, apply_patch, patched_draft, matches_tool, review_existing, dispatch,
  execute, inspection_name, bad_arguments, help_topics,
}

-- The tool that a prepared operation is for.
abbrev pub tool_of : ConfirmableOperation → Text
tool_of (publication p) = codes "publication.publish"
tool_of (stage p) = codes "product.stage"
tool_of (withdrawal p) = codes "product.withdraw"

-- An answer that asks for a review is about an operation that was prepared locally under the handle, for
-- the tool that was called, and shows its summary.
abbrev pub IsGrounded : Text → List (Text × ConfirmableOperation) → ToolExecution → Type 0
IsGrounded name prepared (awaiting_review tool handle review) =
    (operation : ConfirmableOperation) × (lookup handle prepared ≡ some operation)
    × (tool ≡ name)
    × (tool_of operation ≡ name)
    × (review ≡ review_summary operation)
IsGrounded name prepared (clarification question choices) = Unit
IsGrounded name prepared (read tool result) = Unit
IsGrounded name prepared (draft_patch handle draft) = Unit
IsGrounded name prepared (rejected kind) = Unit

matches_tool-tool_of :
    (name : Text) (operation : ConfirmableOperation)
    → matches_tool name operation ≡ true
    → tool_of operation ≡ name
unfolding matches_tool
matches_tool-tool_of name (publication p) h =
    sym ((text_eq_iff name (codes "publication.publish")).0 h)
matches_tool-tool_of name (stage p) h = sym ((text_eq_iff name (codes "product.stage")).0 h)
matches_tool-tool_of name (withdrawal p) h = sym ((text_eq_iff name (codes "product.withdraw")).0 h)

-- The executor's handles and its project root are as before, and no consent is gained.
pub record IsConfined (name : Text) (e : ToolExecutor) (answer : ToolExecutor × ToolExecution)
    : Type 0 where
  pub same_root : answer.0.project_root ≡ e.project_root
  pub same_prepared : answer.0.prepared ≡ e.prepared
  pub same_drafts : answer.0.drafts ≡ e.drafts
  pub no_consent_gained :
      (pair : Text × Text)
      → any (same_pair pair) answer.0.integrity_consent ≡ true
      → any (same_pair pair) e.integrity_consent ≡ true
  pub grounded : IsGrounded name e.prepared answer.1

if_both {ℓ κ} :
    {A : Type ℓ} (P : A → Type κ) (b : Bool) {x y : A} → P x → P y → P (if b then x else y)
if_both P true h k = h
if_both P false h k = k

if_when :
    {A : Type 0} (P : A → Type 0) (b : Bool) {x y : A}
    → (b ≡ true → P x)
    → P y
    → P (if b then x else y)
if_when P true h k = h refl
if_when P false h k = k

unchanged :
    {name : Text} (e : ToolExecutor) (x : ToolExecution)
    → IsGrounded name e.prepared x
    → IsConfined name e (e, x)
unchanged e x g = record {
  same_root = refl;
  same_prepared = refl;
  same_drafts = refl;
  no_consent_gained = λ pair h. h;
  grounded = g;
}

answered-IsGrounded :
    (name : Text) (e : ToolExecutor) (tool : Text) (r : Result Text Json)
    → IsGrounded name e.prepared (answered tool r)
answered-IsGrounded name e tool (ok v) = tt
answered-IsGrounded name e tool (err k) = tt

clarify-IsGrounded :
    (name : Text) (e : ToolExecutor) (o : Option (Text × List Text))
    → IsGrounded name e.prepared (clarify o)
unfolding clarify
clarify-IsGrounded name e none = tt
clarify-IsGrounded name e (some (q, c)) =
    elim (Bool-cases (
      not (is_blank q)
      && leb (byte_length q) 1024
      && leb (length c) 10
      && all (λ d. leb (byte_length d) 256) c)) [
        | inl h ↦ rw (IsGrounded, h) tt
        | inr h ↦ rw (IsGrounded, h) tt
      ]

without_arguments-IsGrounded :
    (name : Text) (e : ToolExecutor) (tool : Text) (arguments : Json) (r : Result Text Json)
    → IsGrounded name e.prepared (without_arguments tool arguments r)
unfolding without_arguments
without_arguments-IsGrounded name e tool arguments r = elim (Bool-cases (no_arguments arguments)) [
  | inl h ↦ rw h (answered-IsGrounded name e tool r)
  | inr h ↦ rw h tt
]

help_lookup-IsGrounded :
    (name : Text) (e : ToolExecutor) (o : Option Text) → IsGrounded name e.prepared (help_lookup o)
unfolding help_lookup
help_lookup-IsGrounded name e none = tt
help_lookup-IsGrounded name e (some topic) = elim (Bool-cases (any (text_eq topic) help_topics)) [
  | inl h ↦ rw (IsGrounded, h) tt
  | inr h ↦ rw (IsGrounded, h) tt
]

patched_draft-IsGrounded :
    (name : Text) (e : ToolExecutor) (handle : Text) (o : Option Fields)
    → IsGrounded name e.prepared (patched_draft handle o)
patched_draft-IsGrounded name e handle none = tt
patched_draft-IsGrounded name e handle (some draft) = tt

publication_validate-IsGrounded :
    (name : Text) (e : ToolExecutor) (o : Option (Text × Fields))
    → IsGrounded name e.prepared (publication_validate o e)
unfolding publication_validate
publication_validate-IsGrounded name e none = tt
publication_validate-IsGrounded name e (some (handle, patch)) =
    elim (Option-cases (lookup handle e.drafts)) [
      | inl h ↦ rw (IsGrounded, h) tt
      | inr (draft, h) ↦
          rw (IsGrounded, h) (patched_draft-IsGrounded name e handle (apply_patch patch draft))
    ]

review_existing-IsGrounded :
    {name : Text} (e : ToolExecutor) (tool : Text) (o : Option Text)
    → tool ≡ name
    → IsGrounded name e.prepared (review_existing tool o e)
unfolding review_existing
review_existing-IsGrounded e tool none same = tt
review_existing-IsGrounded e tool (some handle) same =
    elim (Option-cases (lookup handle e.prepared)) [
      | inl h ↦ rw (IsGrounded, h) tt
      | inr (operation, h) ↦ elim (Bool-cases (matches_tool tool operation)) [
        | inl k ↦
            rw (IsGrounded, h, k)
              (operation, h, same, matches_tool-tool_of tool operation k ∙ same, refl)
        | inr k ↦ rw (IsGrounded, h, k) tt
      ]
    ]

any-filter :
    (p q : Text × Text → Bool) (pairs : List (Text × Text))
    → any p (filter q pairs) ≡ true
    → any p pairs ≡ true
any-filter p q [] h = h
any-filter p q (x ∷ pairs) h = ground (arith, h, any-filter p q pairs)

inspect-IsConfined :
    (name : Text) (core : Core) (resolving : Bool) (o : Option ProductArgs) (e : ToolExecutor)
    → IsConfined name e (product_inspect core resolving o e)
unfolding product_inspect
inspect-IsConfined name core resolving none e = unchanged e bad_arguments tt
inspect-IsConfined name core resolving (some args) e =
    let wanted : Text × Text = (args.reference, args.version) in
    let grounded = answered-IsGrounded name e (inspection_name resolving) (
      core.resolve e.project_root args.reference args.version
        (resolving && args.verify_integrity)) in
    if_both (IsConfined name e) args.verify_integrity
      (if_both (IsConfined name e) (any (same_pair wanted) e.integrity_consent)
        (record {
          same_root = refl;
          same_prepared = refl;
          same_drafts = refl;
          no_consent_gained = λ pair.
              any-filter (same_pair pair) (λ p. not (same_pair wanted p)) e.integrity_consent;
          grounded = grounded;
        })
        (unchanged e _ tt))
      (unchanged e _ grounded)

dispatch-IsConfined :
    (core : Core) (call : ProviderToolCall) (e : ToolExecutor)
    → IsConfined call.name e (dispatch core call e)
unfolding dispatch
dispatch-IsConfined core call e =
    either (codes "user.clarify") (unchanged e _ (clarify-IsGrounded call.name e _)) (
      either (codes "catalog.search") (unchanged e _ (answered-IsGrounded call.name e call.name _))
        (either (codes "product.inspect") (inspect-IsConfined call.name core false _ e) (
          either (codes "product.resolve") (inspect-IsConfined call.name core true _ e) (
            either (codes "peers.status")
              (unchanged e _ (without_arguments-IsGrounded call.name e call.name call.arguments _))
              (either (codes "catalog.refresh")
                (unchanged e _
                  (without_arguments-IsGrounded call.name e call.name call.arguments _))
                (either (codes "help.lookup")
                  (unchanged e _
                    (help_lookup-IsGrounded call.name e (core.decode_topic call.arguments)))
                  (either (codes "publication.validate")
                    (unchanged e _ (publication_validate-IsGrounded call.name e _))
                    (review (codes "publication.publish") (
                      review (codes "product.stage")
                        (review (codes "product.withdraw") (unchanged e _ tt)))))))))))
  where
    either :
        (name : Text) {x y : ToolExecutor × ToolExecution}
        → IsConfined call.name e x
        → IsConfined call.name e y
        → IsConfined call.name e (if text_eq call.name name then x else y)
    either name h k = if_both (IsConfined call.name e) (text_eq call.name name) h k

    review :
        (tool : Text) {y : ToolExecutor × ToolExecution}
        → IsConfined call.name e y
        → IsConfined call.name e (
            if text_eq call.name tool
            then (e, review_existing tool (core.decode_handle call.arguments) e)
            else y)
    review tool k =
        if_when (IsConfined call.name e) (text_eq call.name tool)
          (λ h. unchanged e _ (
            review_existing-IsGrounded e tool (core.decode_handle call.arguments)
              (sym ((text_eq_iff call.name tool).0 h))))
          k

-- Whatever a model calls, the executor keeps its project root, its prepared operations and its drafts, no
-- consent is gained, and a review is asked for only under the name of the tool that was called, and only of
-- an operation that was prepared locally under the handle and is for this tool.
pub execute-IsConfined :
    (core : Core) (call : ProviderToolCall) (e : ToolExecutor)
    → IsConfined call.name e (execute core call e)
unfolding execute
execute-IsConfined core call e =
    if_both (IsConfined call.name e) (leb 256 (length e.provider_call_ids)) (unchanged e _ tt) (
      if_both (IsConfined call.name e)
        (ltb 256 (byte_length call.id) || ltb 65536 (core.json_length call.arguments))
        (unchanged e _ tt)
        (if_both (IsConfined call.name e) (contains call.id e.provider_call_ids) (unchanged e _ tt)
          (remembered (
            dispatch-IsConfined core call
              (record e { provider_call_ids = call.id ∷ e.provider_call_ids })))))
  where
    remembered :
        {ids : List Text} {x : ToolExecutor × ToolExecution}
        → IsConfined call.name (record e { provider_call_ids = ids }) x
        → IsConfined call.name e x
    remembered c = record {
      same_root = c.same_root;
      same_prepared = c.same_prepared;
      same_drafts = c.same_drafts;
      no_consent_gained = c.no_consent_gained;
      grounded = c.grounded;
    }
