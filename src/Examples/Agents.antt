-- ===== src/Examples/Agents.antt =====
-- An assistant whose model asks for help with a tool and then answers, and the requests that it sends.
use feather_mesh.Prelude.{
  ℕ, ◌==◌, true, false, ◌≡◌, refl, ◌⊎◌, Option, none, some, List, [], ◌∷◌, Text, codes, length, ok,
  err, if◌then◌else◌,
}
use feather_mesh.Agent.Json.{null}
use feather_mesh.Agent.Provider.{ProviderToolCall, ModelRequest, text_delta, tool_call, finished}
use feather_mesh.Agent.Profile.{Floats, AgentProfile}
use feather_mesh.Agent.Disclosure.{Wire, outbound}
use feather_mesh.Agent.Disclosure.Allowed.{IsOutbound, outbound-IsOutbound}
use feather_mesh.Agent.Tools.{ToolExecutor, Core, new_executor}
use feather_mesh.Agent.Tools.Execute.{execute}
use feather_mesh.Agent.Tools.Authority.{IsConfined, execute-IsConfined}
use feather_mesh.Agent.Tools.Calls.{
  Use, called, invalidated, use_all, IsRejected, IsHandled, execute-at_most_once,
}
use feather_mesh.Agent.Harness.{AgentHarness, AgentRun, Outside, message, new_harness}
use feather_mesh.Agent.Harness.Turn.{run_mode}
use feather_mesh.Agent.Harness.Ending.{IsFinished, run_mode-IsFinished}

abbrev floats : Floats
floats = record {
  is_finite = λ a. true;
  is_less = λ a b. false;
  is_at_least = λ a b. true;
  add = λ a b. 0;
  multiply = λ a b. 0;
  divide = λ a b. 0;
  from_nat = λ n. n;
  zero = 0;
}

abbrev pub profile : AgentProfile
profile = record {
  backend = codes "router";
  base_url = codes "https://r/v1";
  loopback_ca_file = none;
  model = codes "m";
  api_key_env = codes "K";
  context_policy = codes "metadata-only";
  max_tool_calls = 2;
  max_request_seconds = 9;
  max_context_chars = 1024;
  max_response_chars = 1024;
  max_cost_usd = none;
  allowed_providers = [];
  allow_provider_fallbacks = false;
  allow_user_text = true;
  max_request_bytes = 1024;
  max_response_bytes = 1024;
  max_output_tokens = 9;
  allowed_metadata_fields = codes "name" ∷ [];
  max_input_price = none;
  max_output_price = none;
  reasoning_enabled = false;
}

abbrev pub wire : Wire
wire = record {
  to_text = λ v. codes "{}";
  from_text = λ s. none;
  to_bytes = λ r. some (codes "{}");
  char_count = length;
}

abbrev core : Core
core = record {
  json_length = λ v. 2;
  decode_clarify = λ v. none;
  decode_product = λ v. none;
  decode_topic = λ v. some (codes "resolve");
  decode_handle = λ v. none;
  decode_patch = λ v. none;
  search = λ root query. err (codes "io");
  peers_status = λ root. err (codes "io");
  catalog_refresh = λ root. err (codes "io");
  resolve = λ root reference version verify. err (codes "io");
}

abbrev help_call : ProviderToolCall
help_call = record { id = codes "c1"; name = codes "help.lookup"; arguments = null }

-- The first answer is a call, and the second one a text.
abbrev outside : Outside
outside = record {
  wire = wire;
  core = core;
  floats = floats;
  schemas = [];
  request_length = λ r. 2;
  error_text = λ e. [];
  stream = λ n r. record {
    events =
        if n == 1
        then tool_call help_call ∷ finished ∷ []
        else text_delta (codes "Use a version.") ∷ finished ∷ [];
    failure = none;
    elapsed = 1;
  };
  is_cancelled = λ n. false;
}

abbrev harness : AgentHarness
harness = new_harness floats profile (codes "/p")

abbrev text_and_calls : Option (AgentHarness × AgentRun) → Option (Text × ℕ)
text_and_calls none = none
text_and_calls (some (h, run)) = some (run.text, length run.tools)

-- The run makes the call and tells the answer.
run_with_help :
    text_and_calls (run_mode outside (codes "how?") false harness)
    ≡ some (codes "Use a version.", 1)
unfolding run_mode
run_with_help = refl

run_mode-IsFinished_example :
    IsFinished false harness (run_mode outside (codes "how?") false harness)
run_mode-IsFinished_example = run_mode-IsFinished outside (codes "how?") false harness tt

execute-IsConfined_example :
    IsConfined
      (codes "help.lookup")
      (new_executor (codes "/p"))
      (execute core help_call (new_executor (codes "/p")))
execute-IsConfined_example = execute-IsConfined core help_call (new_executor (codes "/p"))

-- Another call and the loss of the handles come between the two.
abbrev between : List Use
between = called core (record help_call { id = codes "c2" }) ∷ invalidated ∷ []

abbrev helped : ToolExecutor
helped = use_all between (execute core help_call (new_executor (codes "/p"))).0

execute-at_most_once_example :
    IsRejected (new_executor (codes "/p")) (execute core help_call (new_executor (codes "/p")))
    ⊎ (IsHandled help_call
          (new_executor (codes "/p"))
          (execute core help_call (new_executor (codes "/p")))
        × IsRejected helped (execute core help_call helped))
execute-at_most_once_example =
    execute-at_most_once core help_call (new_executor (codes "/p")) between core help_call refl

abbrev told : ModelRequest
told = record {
  messages = message (codes "user") (codes "hi") ∷ [];
  tools = [];
  max_response_chars = 1024;
}

told_sent : outbound wire told profile none ≡ ok told
unfolding outbound
told_sent = refl

outbound-IsOutbound_example : IsOutbound wire profile none told told
outbound-IsOutbound_example = outbound-IsOutbound wire profile none told told told_sent
