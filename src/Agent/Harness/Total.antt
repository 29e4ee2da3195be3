-- ===== src/Agent/Harness/Total.antt =====
-- The rounds of `run_mode`: each one goes on with more calls than before, or ends the run.
use feather_mesh.Prelude.{
  ℕ, zero, suc, ◌+◌, ◌<◌, ◌≡◌, refl, sym, subst, ◌∙◌, Bool, true, false, not, Option, none, some,
  List, [], ◌∷◌, arith, Text, length, is_empty, Result, ok, err, ◌>>=◌, if◌then◌else◌,
}
use mathlib.Core.Bool.{true≢false}
use feather_mesh.Std.Str.{contains_char}
use feather_mesh.Agent.Provider.{ProviderToolCall, ModelMessage, ModelRequest, ProviderError}
use feather_mesh.Agent.Profile.{AgentProfile}
use feather_mesh.Agent.Harness.{Outside, Reply}
use feather_mesh.Agent.Harness.Requests.{is_led, bounded_request-IsRequested}
use feather_mesh.Agent.Harness.Answer.{
  Loop, Step, Heard, poll, ensure, check_time, check_cost_after, check_reserve, count_request,
  account, check_failure,
}
use feather_mesh.Agent.Harness.Calls.{admit, execute_calls, after_calls}
use feather_mesh.Agent.Harness.Turn.{
  conclude, respond, judge, hear_reply, listened, receive, exchange, prelude, send, request_round,
  round, rounds,
}
use feather_mesh.Agent.Harness.Limits.{
  IsWithin, IsEnded, Goes, goes_on, ends, Goes-bind, poll-Goes, ensure-Goes, check_time-Goes,
  check_cost_before-Goes, check_cost_after-Goes, check_reserve-Goes, account-IsWithin,
  check_failure-Goes,
}
use feather_mesh.Agent.Harness.Counted.{
  Runs, through, halts, execute_calls-Runs, Admits, admitted, refused, Advances, advances, over,
  admit-Admits, after_calls-Advances,
}

module _ (p : AgentProfile) (guided : Bool) where
  Advances-bind :
      {n : ℕ} (s : Step) (f : Loop → Step)
      → Goes p guided n s
      → ((l : Loop) → IsWithin p guided n l → Advances p guided n (f l))
      → Advances p guided n (s >>= f)
  Advances-bind (ok l) f (goes_on w) h = h l w
  Advances-bind (err l) f (ends e) h = over e

  ended : {n : ℕ} {l : Loop} → IsWithin p guided n l → IsEnded p guided l
  ended w = record {
    same_profile = w.same_profile;
    few = omega (arith, w.few, w.tools);
    quiet = λ g. w.tools ∙ w.quiet g;
  }

  IsEnded-if :
      (b : Bool) {x y : Loop}
      → IsEnded p guided x
      → IsEnded p guided y
      → IsEnded p guided (if b then x else y)
  IsEnded-if true h k = h
  IsEnded-if false h k = k

  -- A run that ends with the counts of `l`.
  stopped_at :
      {n : ℕ} {l : Loop} (l' : Loop)
      → IsWithin p guided n l
      → l'.harness.profile ≡ l.harness.profile
      → length l'.run.tools ≡ length l.run.tools
      → IsEnded p guided l'
  stopped_at l' w same tools = record {
    same_profile = same ∙ w.same_profile;
    few = omega (arith, w.few, w.tools, tools);
    quiet = λ g. tools ∙ (w.tools ∙ w.quiet g);
  }

  conclude-IsEnded :
      {n : ℕ} (turn_text : Text) (l : Loop)
      → IsWithin p guided n l
      → IsEnded p guided (conclude turn_text l)
  unfolding conclude
  conclude-IsEnded turn_text l w =
      IsEnded-if (contains_char b'?' turn_text) (stopped_at _ w refl refl)
        (stopped_at _ w refl refl)

  after_admission :
      {n : ℕ} (o : Outside) (proposals : List ProviderToolCall) (s : Step)
      → 0 < length proposals
      → Admits p guided n (length proposals) s
      → Advances p guided n
          (s >>= λ l. execute_calls o proposals false l >>= λ next. after_calls o next)
  after_admission {n} o proposals (err l) some_call (refused e) = over e
  after_admission {n} o proposals (ok l) some_call (admitted w free few) =
      executed_calls (execute_calls o proposals false l) (
        execute_calls-Runs p n (n + length proposals) o proposals false l refl
          (record { same_profile = w.same_profile; led = w.led; calls = w.calls; tools = w.tools }))
    where
      executed_calls :
          (r : Result Loop (Loop × Bool))
          → Runs p (n + length proposals) r
          → Advances p guided n (r >>= λ next. after_calls o next)
      executed_calls (ok next) (through c) =
          after_calls-Advances p guided o next free (omega (arith, some_call)) few c
      executed_calls (err l') (halts s t) = over (record {
        same_profile = s;
        few = omega (arith, t, few);
        quiet = λ g. absurd (true≢false (sym g ∙ free));
      })

  answered :
      {n : ℕ} (o : Outside) (turn_text : Text) (proposals : List ProviderToolCall) (l : Loop)
      → IsWithin p guided n l
      → Advances p guided n (
          if is_empty proposals
          then err (conclude turn_text l)
          else (admit o guided proposals l >>= λ a.
              execute_calls o proposals false a >>= λ next. after_calls o next))
  answered o turn_text [] l w = over (conclude-IsEnded turn_text l w)
  answered o turn_text (call ∷ rest) l w =
      after_admission o (call ∷ rest) (admit o guided (call ∷ rest) l) (omega arith)
        (admit-Admits p guided o (call ∷ rest) l w)

  respond-Advances :
      {n : ℕ} (o : Outside) (heard : Heard) (l : Loop)
      → IsWithin p guided n l
      → Advances p guided n (respond o guided heard l)
  unfolding respond
  respond-Advances o heard l w = answered o heard.turn_text heard.proposals l w

  judge-Advances :
      {n : ℕ} (o : Outside) (heard : Heard) (l : Loop)
      → IsWithin p guided n l
      → Advances p guided n (judge o guided heard l)
  unfolding judge
  judge-Advances o heard l w = Advances-bind (poll o l) _ (poll-Goes p guided o l w) (λ l w.
      let quiet : Bool = not heard.output_exceeded in
      Advances-bind (ensure quiet "output_limit" l) _
        (ensure-Goes p guided quiet "output_limit" l w)
        (λ l w. Advances-bind (check_time l) _ (check_time-Goes p guided l w) (λ l w.
          Advances-bind (check_cost_after o.floats l) _
            (check_cost_after-Goes p guided o.floats l w) (λ l w. respond-Advances o heard l w))))

  listened-IsWithin :
      {n : ℕ} (reply : Reply) (heard : Heard) (l : Loop)
      → IsWithin p guided n l
      → IsWithin p guided n (listened reply heard l)
  listened-IsWithin reply heard l w = record {
    same_profile = w.same_profile;
    led = w.led;
    calls = w.calls;
    tools = w.tools;
    few = w.few;
    quiet = w.quiet;
  }

  receive-Advances :
      {n : ℕ} (o : Outside) (reply : Reply) (heard : Heard) (l : Loop)
      → IsWithin p guided n l
      → Advances p guided n (receive o guided reply heard l)
  unfolding receive
  receive-Advances o reply heard l w =
      let paid = account o.floats heard.last_usage (listened reply heard l) in
      Advances-bind (check_failure o reply.failure paid) _
        (check_failure-Goes p guided o reply.failure paid (
          account-IsWithin p guided o.floats heard.last_usage (listened reply heard l)
            (listened-IsWithin reply heard l w)))
        (λ l w. judge-Advances o heard l w)

  exchange-Advances :
      {n : ℕ} (o : Outside) (l : Loop) (request : ModelRequest)
      → IsWithin p guided n l
      → Advances p guided n (exchange o guided (l, request))
  unfolding exchange
  exchange-Advances o l request w =
      Advances-bind (check_reserve o.floats l) _ (check_reserve-Goes p guided o.floats l w) (λ l w.
        let reply = o.stream l.harness.requests request in
        receive-Advances o reply (hear_reply reply l) l w)

  prelude-Goes :
      {n : ℕ} (o : Outside) (l : Loop) → IsWithin p guided n l → Goes p guided n (prelude o l)
  unfolding prelude
  prelude-Goes o l w = Goes-bind p guided (poll o l) _ (poll-Goes p guided o l w) (λ l w.
      Goes-bind p guided (check_time l) _ (check_time-Goes p guided l w)
        (λ l w. check_cost_before-Goes p guided o.floats l w))

  -- A round that has an outcome.
  data Answers (n : ℕ) : Option Step → Type 0 where
    answers : {s : Step} → Advances p guided n s → Answers n (some s)

  send-Answers :
      {n : ℕ} (o : Outside) (l : Loop) (messages : List ModelMessage)
      (result : Result ProviderError ModelRequest)
      → is_led messages ≡ true
      → IsWithin p guided n l
      → Answers n (send o guided (count_request o l (some (messages, result))))
  unfolding count_request send
  send-Answers o l messages (err e) led w = answers (over (stopped_at _ w refl refl))
  send-Answers o l messages (ok request) led w = answers (
      exchange-Advances o _ request (record {
        same_profile = w.same_profile;
        led = led;
        calls = w.calls;
        tools = w.tools;
        few = w.few;
        quiet = w.quiet;
      }))

  request_round-Answers :
      {n : ℕ} (o : Outside) (s : Step) → Goes p guided n s → Answers n (request_round o guided s)
  unfolding request_round
  request_round-Answers o (err l) (ends e) = answers (over e)
  request_round-Answers {n} o (ok l) (goes_on w) =
      let q =
        bounded_request-IsRequested (suc (length l.harness.messages)) o guided l.harness.profile
          l.harness.messages (omega arith) w.led in
      subst (λ answer. Answers n (send o guided (count_request o l answer))) (sym q.answered)
        (send-Answers o l q.messages q.result q.led w)

  -- The loop comes to an end when there is fuel for each call that is left.
  pub data Ends : Option Loop → Type 0 where
    came_to_end : {l : Loop} → IsEnded p guided l → Ends (some l)

  pub rounds-Ends :
      (fuel : ℕ) {n : ℕ} (o : Outside) (l : Loop)
      → IsWithin p guided n l
      → p.max_tool_calls < fuel + n
      → Ends (rounds fuel o guided l)
  unfolding rounds
  rounds-Ends zero o l w enough = absurd (omega (arith, w.few, enough))
  rounds-Ends (suc fuel) {n} o l w enough =
      after_round (round o guided l) (request_round-Answers o (prelude o l) (prelude-Goes o l w))
        (λ m next more within. rounds-Ends fuel o next within (omega (arith, more, enough)))
    where
      after_round :
          (r : Option Step)
          → Answers n r
          → ((m : ℕ) (next : Loop)
              → n < m
              → IsWithin p guided m next
              → Ends (rounds fuel o guided next))
          → Ends (elim r as (λ x. Option Loop) [
            | none ↦ none
            | some (err l') ↦ some l'
            | some (ok l') ↦ rounds fuel o guided l'
          ])
      after_round none a again = elim a [ ]
      after_round (some (ok next)) (answers (advances {m = m} more within)) again =
          again m next more within
      after_round (some (err l')) (answers (over e)) again = came_to_end e
