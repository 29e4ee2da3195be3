-- ===== src/Agent/Harness/Ending.antt =====
-- `run_mode` as a whole: it ends, within the profile's number of tool calls.
use feather_mesh.Prelude.{
  suc, ◌≤◌, ◌≡◌, refl, Bool, true, false, not, ◌||◌, Option, none, some, List, [], ◌∷◌, ◌++◌, arith,
  Text, codes, text_eq, filter, length, Bool-cases, Result-cases, inl, inr, starts_with,
}
use feather_mesh.Agent.Json.{Json, as_str}
use feather_mesh.Agent.Provider.{ModelMessage}
use feather_mesh.Agent.Disclosure.{Wire, tool_summary}
use feather_mesh.Agent.Tools.{local_handles}
use feather_mesh.Agent.Harness.{
  AgentRun, AgentHarness, Outside, opening, spoken, show_handles, is_handles_message, message,
  has_items,
}
use feather_mesh.Agent.Harness.Requests.{is_led}
use feather_mesh.Agent.Harness.Answer.{Loop}
use feather_mesh.Agent.Harness.Turn.{first_loop, check_start, failed, run_mode}
use feather_mesh.Agent.Harness.Total.{Ends, came_to_end, rounds-Ends}

-- No conversation yet, or one whose first message is the instructions: neither a user's nor the list of
-- handles, which the run removes.
abbrev pub IsReady : List ModelMessage → Type 0
IsReady [] = Unit
IsReady (m ∷ rest) = (is_handles_message m ≡ false) × (text_eq m.role (codes "user") ≡ false)

show_handles-led :
    (w : Wire) (handles : Json) (ms : List ModelMessage)
    → is_led ms ≡ true
    → is_led (show_handles w handles ms) ≡ true
unfolding show_handles
show_handles-led w handles [] h = refl
show_handles-led w handles (m ∷ rest) h =
    elim (Bool-cases
      (has_items (codes "operations") handles || has_items (codes "drafts") handles)) [
        | inl e ↦ rw e h
        | inr e ↦ rw e h
      ]

first_kept :
    (m : ModelMessage) (rest : List ModelMessage)
    → IsReady (m ∷ rest)
    → is_led (filter (λ m. not (is_handles_message m)) (m ∷ rest)) ≡ true
first_kept m rest (h, k) = rw h (rw k refl)

spoken_led :
    (user_text : Text) (ms : List ModelMessage)
    → IsReady ms
    → is_led (filter (λ m. not (is_handles_message m)) (spoken user_text ms)) ≡ true
unfolding is_handles_message as_str starts_with text_eq
spoken_led [] [] r = refl
spoken_led (c ∷ text) [] r = refl
spoken_led [] (m ∷ rest) r = first_kept m rest r
spoken_led (c ∷ text) (m ∷ rest) r = first_kept m (rest ++ message (codes "user") (c ∷ text) ∷ []) r

opening-led :
    (w : Wire) (user_text : Text) (h : AgentHarness)
    → IsReady h.messages
    → is_led (opening w user_text h) ≡ true
unfolding opening
opening-led w user_text h ready =
    show_handles-led w (tool_summary h.profile (local_handles h.executor))
      (filter (λ m. not (is_handles_message m)) (spoken user_text h.messages))
      (spoken_led user_text h.messages ready)

-- The run's answer: it is there, and the profile limits its calls.
pub record IsFinished (guided : Bool) (h : AgentHarness) (answer : Option (AgentHarness × AgentRun))
    : Type 0 where
  pub harness : AgentHarness
  pub run : AgentRun
  pub answered : answer ≡ some (harness, run)
  pub same_profile : harness.profile ≡ h.profile
  pub few : length run.tools ≤ h.profile.max_tool_calls
  pub quiet : guided ≡ true → length run.tools ≡ 0

ended-IsFinished :
    (guided : Bool) (h : AgentHarness) (r : Option Loop)
    → Ends h.profile guided r
    → IsFinished guided h (elim r as (λ x. Option (AgentHarness × AgentRun)) [
      | none ↦ none
      | some l ↦ some (l.harness, l.run)
    ])
ended-IsFinished guided h none e = elim e [ ]
ended-IsFinished guided h (some l) (came_to_end e) = record {
  harness = l.harness;
  run = l.run;
  answered = refl;
  same_profile = e.same_profile;
  few = e.few;
  quiet = e.quiet;
}

-- A turn of a new or well-begun conversation always comes to an end, whatever the model answers. It keeps
-- the profile and executes no more tool calls than the profile allows, and none in a guided turn.
pub run_mode-IsFinished :
    (o : Outside) (user_text : Text) (guided : Bool) (h : AgentHarness)
    → IsReady h.messages
    → IsFinished guided h (run_mode o user_text guided h)
unfolding run_mode
run_mode-IsFinished o user_text guided h ready = elim (Result-cases (check_start o user_text h)) [
  | inr ((kind, text), e) ↦
      rw (e, run_mode)
        (record {
          harness = h;
          run = failed kind text;
          answered = refl;
          same_profile = refl;
          few = omega arith;
          quiet = λ g. refl;
        })
  | inl (u, e) ↦
      rw (e, run_mode)
        (ended-IsFinished guided h _ (
          rounds-Ends h.profile guided (suc h.profile.max_tool_calls) o (first_loop o user_text h)
            (record {
              same_profile = refl;
              led = opening-led o.wire user_text h ready;
              calls = refl;
              tools = refl;
              few = omega arith;
              quiet = λ g. refl;
            })
            (omega arith)))
]
