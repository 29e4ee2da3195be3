-- ===== src/Agent/Harness/Turn.antt =====
-- `run_mode` of harness.rs: a round, the loop and the refusals before it.
use feather_mesh.Prelude.{
  ℕ, zero, suc, ◌+◌, Bool, false, not, Option, none, some, [], ◌∷◌, ◌++◌, String, Text, codes,
  is_empty, length, leb, Result, ok, err, guard, ◌>>=◌, ◌>>◌, if◌then◌else◌,
}
use feather_mesh.Std.Str.{contains_char}
use feather_mesh.Agent.Json.{byte_length}
use feather_mesh.Agent.Provider.{ModelRequest}
use feather_mesh.Agent.Profile.{validate}
use feather_mesh.Agent.Harness.{
  complete, awaiting_clarification, run_failed, AgentRun, AgentHarness, Outside, Reply, message,
  opening, bounded_request,
}
use feather_mesh.Agent.Harness.Answer.{
  Loop, Step, end_with, poll, ensure, check_time, check_cost_before, check_cost_after,
  check_reserve, count_request, Heard, hear_all, account, check_failure,
}
use feather_mesh.Agent.Harness.Calls.{admit, execute_calls, after_calls}

-- An answer without a call ends the run.
unfoldable pub conclude : Text → Loop → Loop
conclude turn_text l =
    let said : Loop = record l {
      harness = record l.harness {
        messages = l.harness.messages ++ message (codes "assistant") turn_text ∷ [];
      };
    } in
    if contains_char b'?' turn_text then end_with awaiting_clarification said else said

unfoldable pub respond : Outside → Bool → Heard → Loop → Step
unfolding conclude admit execute_calls after_calls
respond o guided heard l = if is_empty heard.proposals then err (conclude heard.turn_text l) else do
  admitted ← admit o guided heard.proposals l
  next ← execute_calls o heard.proposals false admitted
  after_calls o next

-- The limits after an answer, and what follows.
unfoldable pub judge : Outside → Bool → Heard → Loop → Step
unfolding poll check_time check_cost_after respond
judge o guided heard l = do
  l ← poll o l
  l ← ensure (not heard.output_exceeded) "output_limit" l
  l ← check_time l
  l ← check_cost_after o.floats l
  respond o guided heard l

unfoldable pub hear_reply : Reply → Loop → Heard
unfolding hear_all
hear_reply reply l = hear_all l.harness.profile.max_response_chars reply.events (record {
  text = l.run.text;
  turn_text = [];
  output_exceeded = false;
  proposals = [];
  last_usage = none;
})

abbrev pub listened : Reply → Heard → Loop → Loop
listened reply heard l = record l {
  run = record l.run { text = heard.text };
  model_time = l.model_time + reply.elapsed;
}

-- The answer to a request, which is a text, calls, usage and perhaps a failure.
unfoldable pub receive : Outside → Bool → Reply → Heard → Loop → Step
unfolding account check_failure judge
receive o guided reply heard l = do
  l ← check_failure o reply.failure (account o.floats heard.last_usage (listened reply heard l))
  judge o guided heard l

-- What follows the request, up to the response to its calls.
unfoldable pub exchange : Outside → Bool → Loop × ModelRequest → Step
unfolding check_reserve hear_reply receive
exchange o guided (l, request) = do
  l ← check_reserve o.floats l
  let reply = o.stream l.harness.requests request
  receive o guided reply (hear_reply reply l) l

unfoldable pub prelude : Outside → Loop → Step
unfolding poll check_time check_cost_before
prelude o l = do l ← poll o l; l ← check_time l; check_cost_before o.floats l

-- The answer to the request, if there is one to send.
unfoldable pub send : Outside → Bool → Option (Result Loop (Loop × ModelRequest)) → Option Step
unfolding exchange
send o guided none = none
send o guided (some (err stop)) = some (err stop)
send o guided (some (ok sent)) = some (exchange o guided sent)

-- One round; `none` when `bounded_request` has used up its fuel, which the number of messages bounds.
unfoldable pub request_round : Outside → Bool → Step → Option Step
unfolding send bounded_request count_request
request_round o guided (err l) = some (err l)
request_round o guided (ok l) = send o guided (
    count_request o l (
      bounded_request (suc (length l.harness.messages)) o guided l.harness.profile
        l.harness.messages))

unfoldable pub round : Outside → Bool → Loop → Option Step
unfolding prelude request_round
round o guided l = request_round o guided (prelude o l)

-- The loop; `none` when the fuel is used up.
unfoldable pub rounds : ℕ → Outside → Bool → Loop → Option Loop
unfolding round
rounds zero o guided l = none
rounds (suc fuel) o guided l = elim (round o guided l) [
  | none ↦ none
  | some (err l') ↦ some l'
  | some (ok l') ↦ rounds fuel o guided l'
]

abbrev pub new_run : AgentRun
new_run = record {
  state = complete;
  text = [];
  tools = [];
  usage = none;
  estimated_cost_usd = none;
  pending_operation = none;
}

abbrev pub failed : String → Text → AgentRun
failed kind text = record new_run { state = run_failed kind; text = text }

abbrev pub first_loop : Outside → Text → AgentHarness → Loop
first_loop o user_text h = record {
  harness = record h { messages = opening o.wire user_text h };
  run = new_run;
  calls = 0;
  repairs = 0;
  repeated = [];
  model_time = 0;
  polls = 0;
}

-- The refusals before the conversation is touched.
unfoldable pub check_start : Outside → Text → AgentHarness → Result (String × Text) (Unit {0})
unfolding validate byte_length
check_start o user_text h = do
  guard h.profile.allow_user_text
      ("disclosure_policy", codes "The selected profile disables user text disclosure.")
  elim h.pending_review [
    | none ↦ ok tt
    | some review ↦
        err ("review_pending", codes "Finish or deny the local review before another turn.")
  ]
  elim (validate o.floats h.profile) [
    | ok u ↦ ok tt
    | err e ↦ err ("invalid_profile", codes "Invalid bounded profile.")
  ]
  guard (leb (byte_length user_text) h.profile.max_context_chars)
      ("context_limit", codes "User text exceeds context limit.")

-- `run_mode`, with one round of fuel more than there are calls to make.
unfoldable pub run_mode : Outside → Text → Bool → AgentHarness → Option (AgentHarness × AgentRun)
unfolding check_start rounds opening
run_mode o user_text guided h = elim (check_start o user_text h) [
  | err (kind, text) ↦ some (h, failed kind text)
  | ok u ↦ elim (rounds (suc h.profile.max_tool_calls) o guided (first_loop o user_text h)) [
    | none ↦ none
    | some l ↦ some (l.harness, l.run)
  ]
]
