-- ===== src/Agent/Harness/Calls.antt =====
-- `run_mode` of harness.rs: the calls of an answer.
use feather_mesh.Prelude.{
  suc, ◌+◌, Bool, true, false, not, Option, none, some, List, [], ◌∷◌, ◌++◌, Text, codes, length,
  ltb, leb, contains, Result, ok, err, ◌>>=◌, if◌then◌else◌,
}
use feather_mesh.Agent.Json.{null}
use feather_mesh.Agent.Provider.{ProviderToolCall}
use feather_mesh.Agent.Disclosure.{tool_summary}
use feather_mesh.Agent.Tools.{
  ToolExecution, clarification, read, awaiting_review, draft_patch, rejected,
  take_prepared_operation, model_summary, ToolExecutor,
}
use feather_mesh.Agent.Tools.Execute.{execute}
use feather_mesh.Agent.Harness.{
  awaiting_clarification, stopped, awaiting_review_of, Outside, tool_message,
  expire_interrupted_state,
}
use feather_mesh.Agent.Harness.Answer.{Loop, Step, end_with, fail_run, expired, ensure}

unfoldable pub is_repeated : Outside → List ProviderToolCall → List Text → Option (List Text)
unfolding contains
is_repeated o [] seen = some seen
is_repeated o (call ∷ rest) seen =
    let key = call.name ++ b':' ∷ o.wire.to_text call.arguments in
    let others = is_repeated o rest (key ∷ seen) in if contains key seen then none else others

-- Whether the answer's calls may be executed; the messages then record them.
unfoldable pub admit : Outside → Bool → List ProviderToolCall → Loop → Step
unfolding is_repeated
admit o guided proposals l = do
  l ← ensure (not guided) "guided_tool_call_rejected" l
  l ← ensure (leb (l.calls + length proposals) l.harness.profile.max_tool_calls) "tool_call_limit" l
  elim (is_repeated o proposals l.repeated) [
    | none ↦ fail_run "repeated_tool_call" l
    | some seen ↦ ok (record l {
      repeated = seen;
      harness = record l.harness {
        messages =
            l.harness.messages
            ++ record {
              role = codes "assistant";
              content = null;
              tool_call_id = none;
              tool_calls = some proposals;
            }
              ∷ [];
      };
    })
  ]

abbrev pub is_rejected : ToolExecution → Bool
is_rejected (rejected kind) = true
is_rejected x = false

-- The summary of an execution that asks for no review goes to the conversation.
abbrev pub answer_call : Outside → ProviderToolCall → ToolExecution → Loop → Loop
answer_call o call x l = record l {
  harness = record l.harness {
    messages =
        l.harness.messages
        ++ tool_message (o.wire.to_text (tool_summary l.harness.profile (model_summary x))) call.id
          ∷ [];
  };
}

abbrev pub add_tool : ToolExecution → Loop → Loop
add_tool x l = record l { run = record l.run { tools = l.run.tools ++ x ∷ [] } }

-- After an execution: a review takes the operation out of the executor, and ends the executions of
-- the turn, as a question or a patched draft does. The Boolean is `awaiting_local`.
unfoldable pub settle : Outside → ProviderToolCall → ToolExecution → Bool → Loop → Loop × Bool
unfolding take_prepared_operation model_summary tool_summary
settle o call (awaiting_review tool id review) awaiting l =
    let taken = take_prepared_operation id l.harness.executor in
    let added = add_tool (awaiting_review tool id review) l in
    (
      record added {
        harness = record l.harness { executor = taken.0; pending_review = some (id, call.id) };
        run = record added.run { pending_operation = taken.1; state = awaiting_review_of id };
      },
      true,
    )
settle o call (clarification question choices) awaiting l = (
  end_with awaiting_clarification (
      add_tool (clarification question choices)
        (answer_call o call (clarification question choices) l)),
  true,
)
settle o call (draft_patch handle draft) awaiting l = (
  end_with awaiting_clarification
      (add_tool (draft_patch handle draft) (answer_call o call (draft_patch handle draft) l)),
  true,
)
settle o call (read tool result) awaiting l =
    (add_tool (read tool result) (answer_call o call (read tool result) l), awaiting)
settle o call (rejected kind) awaiting l = (
  add_tool (rejected kind)
      (answer_call o call (rejected kind) (record l { repairs = suc l.repairs })),
  awaiting,
)

abbrev pub executed :
    Outside → ProviderToolCall → Bool → ToolExecutor → ToolExecutor × ToolExecution
executed o call awaiting e =
    if awaiting then (e, rejected (codes "local_review_pending")) else execute o.core call e

-- One call, and the calls of an answer in their order.
unfoldable pub execute_call : Outside → ProviderToolCall → Bool → Loop → Loop × Bool
unfolding settle execute
execute_call o call awaiting l =
    let answer = executed o call awaiting l.harness.executor in
    settle o call answer.1 awaiting
      (record l { calls = suc l.calls; harness = record l.harness { executor = answer.0 } })

abbrev pub without_operation : Loop → Loop
without_operation l = record l { run = record l.run { pending_operation = none } }

-- A run that is cancelled between two calls also drops the operation under review.
unfoldable pub poll_tools : Outside → Loop → Step
unfolding expire_interrupted_state
poll_tools o l =
    let next : Loop = record l { polls = suc l.polls } in
    if o.is_cancelled l.polls
    then err (end_with stopped (without_operation (expired next)))
    else ok next

unfoldable pub execute_calls :
    Outside → List ProviderToolCall → Bool → Loop → Result Loop (Loop × Bool)
unfolding poll_tools execute_call
execute_calls o [] awaiting l = ok (l, awaiting)
execute_calls o (call ∷ rest) awaiting l = do
  polled ← poll_tools o l
  let next = execute_call o call awaiting polled
  execute_calls o rest next.1 next.0

abbrev pub continue_after : Bool → Loop → Step
continue_after awaiting l =
    if awaiting
    then err l
    else if ltb 1 l.repairs
    then err (end_with awaiting_clarification l)
    else ok l

-- The end of a round: `ok` goes on with the next request.
unfoldable pub after_calls : Outside → Loop × Bool → Step
unfolding poll_tools
after_calls o (l, awaiting) = do polled ← poll_tools o l; continue_after awaiting polled
