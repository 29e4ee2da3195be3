-- ===== src/Agent/Harness/Counted.antt =====
-- The calls of an answer, and how many there are.
use feather_mesh.Prelude.{
  ℕ, suc, ◌+◌, ◌≤◌, ◌<◌, ◌≡◌, refl, sym, ap, subst, ◌∙◌, Bool, true, false, not, Option, none, some,
  List, [], ◌∷◌, ◌++◌, arith, String, Text, text_eq, length, ltb, leb, Result, ok, err, ◌>>=◌,
  if◌then◌else◌,
}
use mathlib.Core.Bool.{true≢false}
use feather_mesh.Agent.Provider.{ProviderToolCall, ModelMessage}
use feather_mesh.Agent.Profile.{AgentProfile}
use feather_mesh.Agent.Tools.{
  ToolExecution, clarification, read, awaiting_review, draft_patch, rejected,
}
use feather_mesh.Agent.Harness.{AgentRunState, Outside, expire_interrupted_state}
use feather_mesh.Agent.Harness.Requests.{is_led}
use feather_mesh.Agent.Harness.Answer.{Loop, Step, ensure, end_with}
use feather_mesh.Agent.Harness.Calls.{
  admit, is_repeated, settle, execute_call, poll_tools, execute_calls, after_calls,
}
use feather_mesh.Agent.Harness.Limits.{IsWithin, IsEnded}

is_led-append :
    (ms : List ModelMessage) (m : ModelMessage)
    → is_led ms ≡ true
    → is_led (m ∷ []) ≡ true
    → is_led (ms ++ m ∷ []) ≡ true
is_led-append [] m h k = k
is_led-append (x ∷ ms) m h k = h

length-snoc {ℓ} : {A : Type ℓ} (xs : List A) (x : A) → length (xs ++ x ∷ []) ≡ suc (length xs)
length-snoc [] x = refl
length-snoc (y ∷ xs) x = ap suc (length-snoc xs x)

-- The counts are one higher than `n`, except that the executions may be one behind.
module _ (p : AgentProfile) where
  -- The loop while it executes calls, which a guided run never does.
  pub record IsCounted (n : ℕ) (l : Loop) : Type 0 where
    pub same_profile : l.harness.profile ≡ p
    pub led : is_led l.harness.messages ≡ true
    pub calls : l.calls ≡ n
    pub tools : length l.run.tools ≡ n

  settle-IsCounted :
      {n : ℕ} (o : Outside) (call : ProviderToolCall) (x : ToolExecution) (awaiting : Bool)
      (l : Loop)
      → l.harness.profile ≡ p
      → is_led l.harness.messages ≡ true
      → l.calls ≡ suc n
      → length l.run.tools ≡ n
      → IsCounted (suc n) (settle o call x awaiting l).0
  unfolding settle text_eq
  settle-IsCounted o call (awaiting_review tool id review) awaiting l s d c t = record {
    same_profile = s;
    led = d;
    calls = c;
    tools = length-snoc l.run.tools _ ∙ ap suc t;
  }
  settle-IsCounted o call (clarification question choices) awaiting l s d c t = record {
    same_profile = s;
    led = is_led-append l.harness.messages _ d refl;
    calls = c;
    tools = length-snoc l.run.tools _ ∙ ap suc t;
  }
  settle-IsCounted o call (draft_patch handle draft) awaiting l s d c t = record {
    same_profile = s;
    led = is_led-append l.harness.messages _ d refl;
    calls = c;
    tools = length-snoc l.run.tools _ ∙ ap suc t;
  }
  settle-IsCounted o call (read tool result) awaiting l s d c t = record {
    same_profile = s;
    led = is_led-append l.harness.messages _ d refl;
    calls = c;
    tools = length-snoc l.run.tools _ ∙ ap suc t;
  }
  settle-IsCounted o call (rejected kind) awaiting l s d c t = record {
    same_profile = s;
    led = is_led-append l.harness.messages _ d refl;
    calls = c;
    tools = length-snoc l.run.tools _ ∙ ap suc t;
  }

  execute_call-IsCounted :
      {n : ℕ} (o : Outside) (call : ProviderToolCall) (awaiting : Bool) (l : Loop)
      → IsCounted n l
      → IsCounted (suc n) (execute_call o call awaiting l).0
  unfolding execute_call
  execute_call-IsCounted o call awaiting l w =
      settle-IsCounted o call _ awaiting _ w.same_profile w.led (ap suc w.calls) w.tools

  pub data Runs (n : ℕ) : Result Loop (Loop × Bool) → Type 0 where
    through : {r : Loop × Bool} → IsCounted n r.0 → Runs n (ok r)
    halts : {l : Loop} → l.harness.profile ≡ p → length l.run.tools ≤ n → Runs n (err l)

  -- `poll_tools` goes on with the counts as they are, or ends the run.
  data Polled (n : ℕ) : Step → Type 0 where
    polled : {l : Loop} → IsCounted n l → Polled n (ok l)
    cancelled : {l : Loop} → l.harness.profile ≡ p → length l.run.tools ≡ n → Polled n (err l)

  Polled-if :
      {n : ℕ} (b : Bool) {x y : Step} → Polled n x → Polled n y → Polled n (if b then x else y)
  Polled-if true h k = h
  Polled-if false h k = k

  poll_tools-Polled : {n : ℕ} (o : Outside) (l : Loop) → IsCounted n l → Polled n (poll_tools o l)
  unfolding poll_tools expire_interrupted_state
  poll_tools-Polled o l w = Polled-if (o.is_cancelled l.polls) (cancelled w.same_profile w.tools) (
      polled
        (record { same_profile = w.same_profile; led = w.led; calls = w.calls; tools = w.tools }))

  Runs-bind :
      {n m : ℕ} (s : Step) (f : Loop → Result Loop (Loop × Bool))
      → n ≤ m
      → Polled n s
      → ((l : Loop) → IsCounted n l → Runs m (f l))
      → Runs m (s >>= f)
  Runs-bind (ok l) f few (polled w) h = h l w
  Runs-bind (err l) f few (cancelled s t) h = halts s (omega (arith, few, t))

  pub execute_calls-Runs :
      (n m : ℕ) (o : Outside) (calls : List ProviderToolCall) (awaiting : Bool) (l : Loop)
      → n + length calls ≡ m
      → IsCounted n l
      → Runs m (execute_calls o calls awaiting l)
  unfolding execute_calls
  execute_calls-Runs n m o [] awaiting l e w =
      through (subst (λ k. IsCounted k l) (omega (arith, e)) w)
  execute_calls-Runs n m o (call ∷ rest) awaiting l e w =
      Runs-bind (poll_tools o l) _ (omega (arith, e)) (poll_tools-Polled o l w) (λ next c.
        execute_calls-Runs (suc n) m o rest _ _ (omega (arith, e))
          (execute_call-IsCounted o call awaiting next c))

  module _ (guided : Bool) where
    pub data Admits (n k : ℕ) : Step → Type 0 where
      admitted :
          {l : Loop}
          → IsWithin p guided n l
          → guided ≡ false
          → n + k ≤ p.max_tool_calls
          → Admits n k (ok l)
      refused : {l : Loop} → IsEnded p guided l → Admits n k (err l)

    pub data Advances (n : ℕ) : Step → Type 0 where
      advances : {m : ℕ} {l : Loop} → n < m → IsWithin p guided m l → Advances n (ok l)
      over : {l : Loop} → IsEnded p guided l → Advances n (err l)

    refuses :
        {n k : ℕ} (l : Loop) (state : AgentRunState)
        → IsWithin p guided n l
        → Admits n k (err (end_with state l))
    refuses l state w = refused (record {
      same_profile = w.same_profile;
      few = omega (arith, w.few, w.tools);
      quiet = λ g. w.tools ∙ w.quiet g;
    })

    admit_new :
        {n k : ℕ} (l : Loop) (seen : Option (List Text)) (f : List Text → Loop)
        → IsWithin p guided n l
        → guided ≡ false
        → n + k ≤ p.max_tool_calls
        → ((s : List Text) → IsWithin p guided n (f s))
        → Admits n k (elim seen as (λ x. Step) [
          | none ↦ err (end_with (AgentRunState.run_failed "repeated_tool_call") l)
          | some s ↦ ok (f s)
        ])
    admit_new l none f w g few h = refuses l _ w
    admit_new l (some s) f w g few h = admitted (h s) g few

    admit_bind :
        {n k : ℕ} (b : Bool) (kind : String) (l : Loop) (f : Loop → Step)
        → IsWithin p guided n l
        → (b ≡ true → Admits n k (f l))
        → Admits n k (ensure b kind l >>= f)
    admit_bind true kind l f w h = h refl
    admit_bind false kind l f w h = refuses l _ w

    pub admit-Admits :
        {n : ℕ} (o : Outside) (proposals : List ProviderToolCall) (l : Loop)
        → IsWithin p guided n l
        → Admits n (length proposals) (admit o guided proposals l)
    unfolding admit text_eq
    admit-Admits {n} o proposals l w = admit_bind (not guided) _ l _ w (λ free.
        admit_bind _ _ l _ w (λ few.
          let same = ap (λ (q : AgentProfile). q.max_tool_calls) w.same_profile in
          admit_new l (is_repeated o proposals l.repeated) _ w (ground (arith, free))
            (bounded l.calls (length proposals) l.harness.profile.max_tool_calls few w.calls same)
            (λ seen. record {
              same_profile = w.same_profile;
              led = is_led-append l.harness.messages _ w.led refl;
              calls = w.calls;
              tools = w.tools;
              few = w.few;
              quiet = w.quiet;
            })))
      where
        bounded :
            (calls k limit : ℕ)
            → leb (calls + k) limit ≡ true
            → calls ≡ n
            → limit ≡ p.max_tool_calls
            → n + k ≤ p.max_tool_calls
        bounded calls k limit few c e = ground (arith, few, c, e)

    poll_last :
        {n m : ℕ} (s : Step) (f : Loop → Step)
        → guided ≡ false
        → m ≤ p.max_tool_calls
        → Polled m s
        → ((l : Loop) → IsCounted m l → Advances n (f l))
        → Advances n (s >>= f)
    poll_last (ok l) f g few (polled w) h = h l w
    poll_last (err l) f g few (cancelled s t) h = over (record {
      same_profile = s;
      few = omega (arith, few, t);
      quiet = λ q. absurd (true≢false (sym q ∙ g));
    })

    Advances-if :
        {n : ℕ} (b : Bool) {x y : Step}
        → Advances n x
        → Advances n y
        → Advances n (if b then x else y)
    Advances-if true h k = h
    Advances-if false h k = k

    pub after_calls-Advances :
        {n m : ℕ} (o : Outside) (r : Loop × Bool)
        → guided ≡ false
        → n < m
        → m ≤ p.max_tool_calls
        → IsCounted m r.0
        → Advances n (after_calls o r)
    unfolding after_calls
    after_calls-Advances {n} {m} o (l, awaiting) g more few c =
        poll_last (poll_tools o l) _ g few (poll_tools-Polled o l c) (λ next w.
          Advances-if awaiting (over (returned next w)) (
            Advances-if (ltb 1 next.repairs)
              (over (record {
                same_profile = w.same_profile;
                few = omega (arith, few, w.tools);
                quiet = λ q. absurd (true≢false (sym q ∙ g));
              }))
              (advances more (record {
                same_profile = w.same_profile;
                led = w.led;
                calls = w.calls;
                tools = w.tools;
                few = few;
                quiet = λ q. absurd (true≢false (sym q ∙ g));
              }))))
      where
        returned : (next : Loop) → IsCounted m next → IsEnded p guided next
        returned next w = record {
          same_profile = w.same_profile;
          few = omega (arith, few, w.tools);
          quiet = λ q. absurd (true≢false (sym q ∙ g));
        }
