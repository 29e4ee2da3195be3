-- ===== src/Agent/Harness/Limits.antt =====
-- What each step of a turn keeps: the profile, who speaks first, and the count of the calls.
use feather_mesh.Prelude.{
  ℕ, zero, suc, ◌≤◌, ◌≡◌, ◌∙◌, Bool, true, false, not, Option, none, some, arith, String, Text,
  length, ok, err, ◌>>=◌, if◌then◌else◌,
}
use feather_mesh.Agent.Provider.{
  ProviderUsage, ProviderError, provider_cancelled, configuration, transport, malformed, protocol,
  authentication, rate_limited, too_large,
}
use feather_mesh.Agent.Profile.{Floats, AgentProfile}
use feather_mesh.Agent.Harness.{AgentRunState, Outside, expire_interrupted_state}
use feather_mesh.Agent.Harness.Requests.{is_led}
use feather_mesh.Agent.Harness.Answer.{
  Loop, Step, end_with, fail_run, poll, ensure, check_time, check_cost_before, check_cost_after,
  check_reserve, account, spend, known_cost, check_failure,
}

module _ (p : AgentProfile) (guided : Bool) where
  -- The loop has executed `n` calls, no more than the profile allows, and none in a guided run.
  pub record IsWithin (n : ℕ) (l : Loop) : Type 0 where
    pub same_profile : l.harness.profile ≡ p
    pub led : is_led l.harness.messages ≡ true
    pub calls : l.calls ≡ n
    pub tools : length l.run.tools ≡ n
    pub few : n ≤ p.max_tool_calls
    pub quiet : guided ≡ true → n ≡ 0

  -- What holds of a run that is returned.
  pub record IsEnded (l : Loop) : Type 0 where
    pub same_profile : l.harness.profile ≡ p
    pub few : length l.run.tools ≤ p.max_tool_calls
    pub quiet : guided ≡ true → length l.run.tools ≡ 0

  pub data Goes (n : ℕ) : Step → Type 0 where
    goes_on : {l : Loop} → IsWithin n l → Goes n (ok l)
    ends : {l : Loop} → IsEnded l → Goes n (err l)

  ended : {n : ℕ} {l : Loop} → IsWithin n l → IsEnded l
  ended w = record {
    same_profile = w.same_profile;
    few = omega (arith, w.few, w.tools);
    quiet = λ g. w.tools ∙ w.quiet g;
  }

  pub stops :
      {n : ℕ} (l : Loop) (state : AgentRunState) → IsWithin n l → Goes n (err (end_with state l))
  stops l state w = ends (record {
    same_profile = w.same_profile;
    few = omega (arith, w.few, w.tools);
    quiet = λ g. w.tools ∙ w.quiet g;
  })

  pub Goes-bind :
      {n k : ℕ} (m : Step) (f : Loop → Step)
      → Goes n m
      → ((l : Loop) → IsWithin n l → Goes k (f l))
      → Goes k (m >>= f)
  Goes-bind (ok l) f (goes_on w) h = h l w
  Goes-bind (err l) f (ends e) h = ends e

  pub Goes-if : {n : ℕ} (b : Bool) {x y : Step} → Goes n x → Goes n y → Goes n (if b then x else y)
  Goes-if true h k = h
  Goes-if false h k = k

  pub poll-Goes : {n : ℕ} (o : Outside) (l : Loop) → IsWithin n l → Goes n (poll o l)
  unfolding poll expire_interrupted_state
  poll-Goes o l w =
      Goes-if (o.is_cancelled l.polls)
        (ends (record {
          same_profile = w.same_profile;
          few = omega (arith, w.few, w.tools);
          quiet = λ g. w.tools ∙ w.quiet g;
        }))
        (goes_on (record {
          same_profile = w.same_profile;
          led = w.led;
          calls = w.calls;
          tools = w.tools;
          few = w.few;
          quiet = w.quiet;
        }))

  pub ensure-Goes :
      {n : ℕ} (b : Bool) (kind : String) (l : Loop) → IsWithin n l → Goes n (ensure b kind l)
  ensure-Goes b kind l w = Goes-if b (goes_on w) (stops l _ w)

  pub check_time-Goes : {n : ℕ} (l : Loop) → IsWithin n l → Goes n (check_time l)
  unfolding check_time
  check_time-Goes l w = ensure-Goes _ _ l w

  limited :
      {n : ℕ} (limit : Option ℕ) (l : Loop) (f : ℕ → Step)
      → IsWithin n l
      → ((c : ℕ) → Goes n (f c))
      → Goes n (elim limit as (λ x. Step) [ none ↦ ok l | some c ↦ f c ])
  limited none l f w h = goes_on w
  limited (some c) l f w h = h c

  pub check_cost_before-Goes :
      {n : ℕ} (f : Floats) (l : Loop) → IsWithin n l → Goes n (check_cost_before f l)
  unfolding check_cost_before
  check_cost_before-Goes f l w = limited l.harness.profile.max_cost_usd l _ w (λ limit.
      Goes-if l.harness.unknown_cost (stops l _ w)
        (ensure-Goes (not (f.is_at_least l.harness.spent limit)) "cost_limit" l w))

  pub check_cost_after-Goes :
      {n : ℕ} (f : Floats) (l : Loop) → IsWithin n l → Goes n (check_cost_after f l)
  unfolding check_cost_after
  check_cost_after-Goes f l w =
      limited l.harness.profile.max_cost_usd l _ w
        (λ limit. ensure-Goes (not (f.is_at_least l.harness.spent limit)) "cost_limit" l w)

  reserve_Goes :
      {n : ℕ} (l : Loop) (o : Option ℕ)
      → IsWithin n l
      → Goes n (elim o as (λ x. Step) [
        | some (suc k) ↦ fail_run "cost_limit" l
        | some zero ↦ ok l
        | none ↦ ok l
      ])
  reserve_Goes l none w = goes_on w
  reserve_Goes l (some zero) w = goes_on w
  reserve_Goes l (some (suc k)) w = stops l _ w

  pub check_reserve-Goes :
      {n : ℕ} (f : Floats) (l : Loop) → IsWithin n l → Goes n (check_reserve f l)
  unfolding check_reserve
  check_reserve-Goes f l w = reserve_Goes l _ w

  spend-IsWithin :
      {n : ℕ} (f : Floats) (c : Option ℕ) (l : Loop) → IsWithin n l → IsWithin n (spend f c l)
  spend-IsWithin f none l w = record {
    same_profile = w.same_profile;
    led = w.led;
    calls = w.calls;
    tools = w.tools;
    few = w.few;
    quiet = w.quiet;
  }
  spend-IsWithin f (some c) l w = record {
    same_profile = w.same_profile;
    led = w.led;
    calls = w.calls;
    tools = w.tools;
    few = w.few;
    quiet = w.quiet;
  }

  pub account-IsWithin :
      {n : ℕ} (f : Floats) (u : Option ProviderUsage) (l : Loop)
      → IsWithin n l
      → IsWithin n (account f u l)
  unfolding account
  account-IsWithin f none l w = spend-IsWithin f none l w
  account-IsWithin f (some u) l w =
      let paid = spend-IsWithin f (known_cost f u.cost_usd) l w in
      record {
        same_profile = paid.same_profile;
        led = paid.led;
        calls = paid.calls;
        tools = paid.tools;
        few = paid.few;
        quiet = paid.quiet;
      }

  told :
      {n : ℕ} (l : Loop) (text : Text) (state : AgentRunState)
      → IsWithin n l
      → Goes n (err (record l { run = record l.run { text = text; state = state } }))
  told l text state w = ends (record {
    same_profile = w.same_profile;
    few = omega (arith, w.few, w.tools);
    quiet = λ g. w.tools ∙ w.quiet g;
  })

  pub check_failure-Goes :
      {n : ℕ} (o : Outside) (e : Option ProviderError) (l : Loop)
      → IsWithin n l
      → Goes n (check_failure o e l)
  unfolding check_failure expire_interrupted_state
  check_failure-Goes o none l w = goes_on w
  check_failure-Goes o (some provider_cancelled) l w = ends (record {
    same_profile = w.same_profile;
    few = omega (arith, w.few, w.tools);
    quiet = λ g. w.tools ∙ w.quiet g;
  })
  check_failure-Goes o (some (configuration m)) l w = told l _ _ w
  check_failure-Goes o (some (transport m)) l w = told l _ _ w
  check_failure-Goes o (some (malformed m)) l w = told l _ _ w
  check_failure-Goes o (some (protocol m)) l w = told l _ _ w
  check_failure-Goes o (some authentication) l w = told l _ _ w
  check_failure-Goes o (some rate_limited) l w = told l _ _ w
  check_failure-Goes o (some too_large) l w = told l _ _ w
