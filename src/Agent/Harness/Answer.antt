-- ===== src/Agent/Harness/Answer.antt =====
-- `run_mode` of harness.rs: the loop's variables, the limits on a request, and what is kept of an answer. A
-- step returns `err` where the code returns the run.
use feather_mesh.Prelude.{
  ℕ, zero, suc, ◌+◌, ◌*◌, ◌^◌, ◌%◌, Bool, true, ◌&&◌, not, Option, none, some, List, [], ◌∷◌, ◌++◌,
  String, Text, length, ltb, leb, Result, ok, err, if◌then◌else◌,
}
use feather_mesh.Agent.Json.{byte_length}
use feather_mesh.Agent.Provider.{
  ProviderToolCall, ModelMessage, ModelRequest, ProviderUsage, ProviderEvent, text_delta, tool_call,
  usage, finished, ProviderError, provider_cancelled, provider_error_kind,
}
use feather_mesh.Agent.Profile.{Floats}
use feather_mesh.Agent.Harness.{
  AgentRunState, stopped, run_failed, AgentRun, AgentHarness, Outside, expire_interrupted_state,
}

-- The variables of the loop; `polls` counts the questions to the cancellation token.
pub record Loop : Type 0 where
  pub harness : AgentHarness
  pub run : AgentRun
  pub calls : ℕ
  pub repairs : ℕ
  pub repeated : List Text
  pub model_time : ℕ
  pub polls : ℕ

abbrev pub Step : Type 0
Step = Result Loop Loop

abbrev pub end_with : AgentRunState → Loop → Loop
end_with state l = record l { run = record l.run { state = state } }

abbrev pub fail_run : String → Loop → Step
fail_run kind l = err (end_with (run_failed kind) l)

abbrev pub expired : Loop → Loop
expired l = record l { harness = expire_interrupted_state l.harness }

-- `if self.cancellation.is_cancelled()` at the places where a cancelled run stops.
unfoldable pub poll : Outside → Loop → Step
unfolding expire_interrupted_state
poll o l =
    let next : Loop = record l { polls = suc l.polls } in
    if o.is_cancelled l.polls then err (end_with stopped (expired next)) else ok next

abbrev pub ensure : Bool → String → Loop → Step
ensure b kind l = if b then ok l else fail_run kind l

abbrev pub nanoseconds : ℕ → ℕ
nanoseconds seconds = seconds * 1000000000

unfoldable pub check_time : Loop → Step
check_time l =
    ensure (ltb l.model_time (nanoseconds l.harness.profile.max_request_seconds))
      "request_time_limit" l

-- Before a request, and after one: then an unknown cost is not looked at.
unfoldable pub check_cost_before : Floats → Loop → Step
check_cost_before f l = elim l.harness.profile.max_cost_usd [
  | none ↦ ok l
  | some limit ↦
      if l.harness.unknown_cost
      then fail_run "cost_unknown" l
      else ensure (not (f.is_at_least l.harness.spent limit)) "cost_limit" l
]

unfoldable pub check_cost_after : Floats → Loop → Step
check_cost_after f l = elim l.harness.profile.max_cost_usd [
  | none ↦ ok l
  | some limit ↦ ensure (not (f.is_at_least l.harness.spent limit)) "cost_limit" l
]

-- `zip` of two options.
abbrev pub zip_with : (ℕ → ℕ → ℕ) → Option ℕ → Option ℕ → Option ℕ
zip_with g none b = none
zip_with g (some a) none = none
zip_with g (some a) (some b) = some (g a b)

abbrev pub reserve_cost : Floats → ℕ → ℕ → ℕ → ℕ → ℕ
reserve_cost f bytes tokens input output =
    f.add (f.divide (f.multiply (f.from_nat bytes) input) (f.from_nat 1000000))
      (f.divide (f.multiply (f.from_nat tokens) output) (f.from_nat 1000000))

unfoldable pub check_reserve : Floats → Loop → Step
check_reserve f l =
    let reserve : Option ℕ =
      zip_with (reserve_cost f l.harness.request_bytes l.harness.profile.max_output_tokens)
        l.harness.profile.max_input_price l.harness.profile.max_output_price in
    elim (zip_with (λ limit cost. if f.is_less limit (f.add l.harness.spent cost) then 1 else 0)
      l.harness.profile.max_cost_usd reserve) [
        | some (suc n) ↦ fail_run "cost_limit" l
        | some zero ↦ ok l
        | none ↦ ok l
      ]

abbrev pub larger : ℕ → ℕ → ℕ
larger a b = if leb a b then b else a

-- The request that is sent is counted, and the largest one is remembered.
unfoldable pub count_request :
    Outside
    → Loop
    → Option (List ModelMessage × Result ProviderError ModelRequest)
    → Option (Result Loop (Loop × ModelRequest))
count_request o l none = none
count_request o l (some (messages, err e)) = some (
    err (
      end_with (run_failed "context_limit")
        (record l { harness = record l.harness { messages = messages } })))
count_request o l (some (messages, ok request)) = some (
    ok (
      record l {
        harness = record l.harness {
          messages = messages;
          request_bytes = larger l.harness.request_bytes (o.request_length request);
          requests = suc l.harness.requests;
        };
      },
      request,
    ))

-- What the callback collects of the events of one answer.
pub record Heard : Type 0 where
  pub text : Text
  pub turn_text : Text
  pub output_exceeded : Bool
  pub proposals : List ProviderToolCall
  pub last_usage : Option ProviderUsage

unfoldable pub hear : ℕ → ProviderEvent → Heard → Heard
unfolding byte_length
hear limit (text_delta delta) a =
    if ltb limit (byte_length a.text + byte_length delta)
    then record a { output_exceeded = true }
    else record a { text = a.text ++ delta; turn_text = a.turn_text ++ delta }
hear limit (tool_call call) a =
    if ltb (length a.proposals) 9 then record a { proposals = a.proposals ++ call ∷ [] } else a
hear limit (usage u) a = record a { last_usage = some u }
hear limit finished a = a

unfoldable pub hear_all : ℕ → List ProviderEvent → Heard → Heard
unfolding hear
hear_all limit [] a = a
hear_all limit (event ∷ events) a = hear_all limit events (hear limit event a)

abbrev pub no_usage : Floats → ProviderUsage
no_usage f = record {
  model = none;
  provider = none;
  generation_id = none;
  input_tokens = some 0;
  output_tokens = some 0;
  cost_usd = some f.zero;
}

abbrev pub or_else : {A : Type 0} → Option A → A → A
or_else none d = d
or_else (some a) d = a

-- `u64` addition in a release build.
abbrev pub add_u64 : ℕ → ℕ → ℕ
add_u64 a b = (a + b) % 2 ^ 64

unfoldable pub add_usage : Floats → ProviderUsage → ProviderUsage → ProviderUsage
add_usage f total current = record {
  model = current.model;
  provider = current.provider;
  generation_id = current.generation_id;
  input_tokens = zip_with add_u64 total.input_tokens current.input_tokens;
  output_tokens = zip_with add_u64 total.output_tokens current.output_tokens;
  cost_usd = zip_with f.add total.cost_usd current.cost_usd;
}

-- `cost_usd.filter(|c| c.is_finite() && *c >= 0.0)`
abbrev pub known_cost : Floats → Option ℕ → Option ℕ
known_cost f none = none
known_cost f (some c) = if f.is_finite c && f.is_at_least c f.zero then some c else none

abbrev pub spend : Floats → Option ℕ → Loop → Loop
spend f none l = record l { harness = record l.harness { unknown_cost = true } }
spend f (some cost) l = record l {
  harness = record l.harness { spent = f.add l.harness.spent cost };
  run = record l.run {
    estimated_cost_usd = some (f.add (or_else l.run.estimated_cost_usd f.zero) cost);
  };
}

unfoldable pub account : Floats → Option ProviderUsage → Loop → Loop
unfolding add_usage
account f none l = record l { harness = record l.harness { unknown_cost = true } }
account f (some current) l =
    let paid : Loop = spend f (known_cost f current.cost_usd) l in
    record paid {
      run = record paid.run {
        usage = some (add_usage f (or_else paid.run.usage (no_usage f)) current);
      };
    }

-- An answer that failed ends the run; its error is shown after the text.
unfoldable pub check_failure : Outside → Option ProviderError → Loop → Step
unfolding provider_error_kind expire_interrupted_state
check_failure o none l = ok l
check_failure o (some provider_cancelled) l = err (end_with stopped (expired l))
check_failure o (some e) l =
    fail_run (provider_error_kind e)
      (record l { run = record l.run { text = l.run.text ++ o.error_text e } })
