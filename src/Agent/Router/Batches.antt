-- ===== src/Agent/Router/Batches.antt =====
-- What `stream_async` of provider.rs shows of a response, whatever names it may use.
use feather_mesh.Prelude.{
  ℕ, ◌≡◌, subst, append_assoc, Bool, true, false, ◌&&◌, Option, none, some, List, [], ◌∷◌, ◌++◌,
  map, Text, codes, contains, All, Result, ok, err, ◌>>=◌, Result-cases, inl, inr, if◌then◌else◌,
  Bool-cases, Option-cases, ltb, leb,
}
use feather_mesh.Agent.Json.{Json, get}
use feather_mesh.Agent.Provider.{
  ProviderToolCall, ProviderEvent, text_delta, tool_call, usage, finished, ProviderError, transport,
}
use feather_mesh.Agent.Router.{
  Codec, RouterToolNames, local_name, PartialToolCall, PartialCalls, Shown, shown_before, and_then,
  silent, usage_events, content_events, process_choice, process_router_event, is_some, first_choice,
}
use feather_mesh.Agent.Router.Stream.{
  Arrival, Received, handle_event, handle_events, read_chunks, last_events, finish_response,
  complete_call, complete_calls, conclude_response, stream_response, is_ended, nothing_received,
  refusal,
}

-- A text or a usage: nothing that is acted on.
abbrev pub IsReport : ProviderEvent → Type 0
IsReport (text_delta s) = Unit
IsReport (tool_call c) = ⊥
IsReport (usage u) = Unit
IsReport finished = ⊥

record AreReports {A : Type 0} (r : Shown A) : Type 0 where
  reports : All IsReport r.0

All-append : {A : Type 0} (P : A → Type 0) (xs ys : List A) → All P xs → All P ys → All P (xs ++ ys)
All-append P [] ys h k = k
All-append P (x ∷ xs) ys h k = (h.0, All-append P xs ys h.1 k)

and_then-AreReports :
    {A B : Type 0} (m : Shown A) (f : A → Shown B)
    → AreReports m
    → ((a : A) → AreReports (f a))
    → AreReports (and_then m f)
unfolding and_then
and_then-AreReports (es, err e) f h k = record { reports = h.reports }
and_then-AreReports (es, ok a) f h k = record {
  reports = All-append IsReport es (f a).0 h.reports (k a).reports;
}

silent-AreReports : {A : Type 0} (r : Result ProviderError A) → AreReports (silent r)
silent-AreReports r = record { reports = tt }

shown_before-AreReports :
    {A : Type 0} (es : List ProviderEvent) (r : Shown A)
    → All IsReport es
    → AreReports r
    → AreReports (shown_before es r)
shown_before-AreReports es r h k = record { reports = All-append IsReport es r.0 h k.reports }

if-AreReports :
    {A : Type 0} (b : Bool) (r s : Shown A)
    → AreReports r
    → AreReports s
    → AreReports (if b then r else s)
if-AreReports true r s h k = h
if-AreReports false r s h k = k

usage_events-reports :
    (codec : Codec) (v : Json) (u : Option Json) → All IsReport (usage_events codec v u)
usage_events-reports codec v none = tt
usage_events-reports codec v (some u) = (tt, tt)

content_events-reports : (s : Option Text) → All IsReport (content_events s)
content_events-reports none = tt
content_events-reports (some s) = (tt, tt)

process_choice-AreReports :
    (calls : PartialCalls) (choice : Option Json) → AreReports (process_choice calls choice)
unfolding process_choice
process_choice-AreReports calls none = record { reports = tt }
process_choice-AreReports calls (some choice) =
    shown_before-AreReports _ _ (content_events-reports _) (silent-AreReports _)

process_router_event-AreReports :
    (codec : Codec) (calls : PartialCalls) (raw : Text)
    → AreReports (process_router_event codec calls raw)
unfolding process_router_event
process_router_event-AreReports codec calls raw =
    and_then-AreReports _ _ (silent-AreReports _) (λ value.
      if-AreReports (is_some (get (codes "error") value))
        (silent (err (transport (codes "provider reported an in-stream error"))))
        (shown_before (usage_events codec value (get (codes "usage") value))
          (process_choice calls (first_choice (get (codes "choices") value))))
        (silent-AreReports _)
        (shown_before-AreReports _ _ (usage_events-reports codec value (get (codes "usage") value))
          (process_choice-AreReports calls (first_choice (get (codes "choices") value)))))

handle_event-AreReports :
    (codec : Codec) (r : Received) (event : Text) → AreReports (handle_event codec r event)
unfolding handle_event
handle_event-AreReports codec r event = if-AreReports _ _ _ (silent-AreReports _) (
    and_then-AreReports _ _ (silent-AreReports _) (λ frame.
      and_then-AreReports _ _ (process_router_event-AreReports codec r.tool_calls _)
        (λ calls. silent-AreReports _)))

handle_events-AreReports :
    (codec : Codec) (r : Received) (events : List Text) → AreReports (handle_events codec r events)
unfolding handle_events
handle_events-AreReports codec r [] = silent-AreReports _
handle_events-AreReports codec r (event ∷ events) =
    and_then-AreReports _ _ (handle_event-AreReports codec r event)
      (λ next. handle_events-AreReports codec next events)

read_chunks-AreReports :
    (codec : Codec) (limit : ℕ) (r : Received) (arrivals : List Arrival)
    → AreReports (read_chunks codec limit r arrivals)
unfolding read_chunks
read_chunks-AreReports codec limit r [] = silent-AreReports _
read_chunks-AreReports codec limit r (a ∷ arrivals) =
    and_then-AreReports _ _ (silent-AreReports _) (λ accepted.
      and_then-AreReports _ _ (handle_events-AreReports codec accepted.0 accepted.1)
        (λ next. read_chunks-AreReports codec limit next arrivals))

last_events-AreReports :
    (codec : Codec) (calls : PartialCalls) (events : List Text)
    → AreReports (last_events codec calls events)
unfolding last_events
last_events-AreReports codec calls [] = silent-AreReports _
last_events-AreReports codec calls (event ∷ events) =
    and_then-AreReports _ _
      (if-AreReports _ _ _ (silent-AreReports _) (process_router_event-AreReports codec calls _))
      (λ next. last_events-AreReports codec next events)

finish_response-AreReports : (codec : Codec) (r : Received) → AreReports (finish_response codec r)
unfolding finish_response
finish_response-AreReports codec r =
    and_then-AreReports _ _ (silent-AreReports _)
      (λ parsed. last_events-AreReports codec r.tool_calls _)

-- No two calls have one id, and none has an id of `ids`.
abbrev pub AreFresh : List Text → List ProviderToolCall → Type 0
AreFresh ids [] = Unit
AreFresh ids (c ∷ cs) = (contains c.id ids ≡ false) × AreFresh (c.id ∷ ids) cs

-- A name that the router may use.
pub record IsLocal (names : RouterToolNames) (name : Text) : Type 0 where
  pub wire : Text
  pub found : local_name names wire ≡ ok name

pub record IsBatch (P : Text → Type 0) (ids : List Text) (calls : List ProviderToolCall)
    : Type 0 where
  pub local : All (λ c. P c.name) calls
  pub fresh : AreFresh ids calls

record IsCompleted (names : RouterToolNames) (ids : List Text) (call : ProviderToolCall)
    : Type 0 where
  local : IsLocal names call.name
  fresh : contains call.id ids ≡ false

-- What a result has, if there is one.
abbrev Yields : {A : Type 0} → (A → Type 0) → Result ProviderError A → Type 0
Yields P (ok a) = P a
Yields P (err e) = Unit

complete_call-Yields :
    (codec : Codec) (names : RouterToolNames) (ids : List Text) (partial : PartialToolCall)
    → Yields (IsCompleted names ids) (complete_call codec names ids partial)
unfolding complete_call
complete_call-Yields codec names ids partial = elim (Option-cases partial.id) [
  | inl none_1 ↦ rw none_1 tt
  | inr (id, e1) ↦ elim (Bool-cases (contains id ids)) [
    | inl repeated ↦ rw (e1, repeated) tt
    | inr fresh ↦ elim (Option-cases partial.name) [
      | inl none_2 ↦ rw (e1, fresh, none_2) tt
      | inr (wire, e2) ↦ elim (Result-cases (local_name names wire)) [
        | inr (e, e3) ↦ rw (e1, fresh, e2, e3) tt
        | inl (name, e3) ↦ elim (Option-cases (codec.from_text partial.arguments)) [
          | inl none_4 ↦ rw (e1, fresh, e2, e3, none_4) tt
          | inr (arguments, e4) ↦
              rw (e1, fresh, e2, e3, e4)
                (record { local = record { wire = wire; found = e3 }; fresh = fresh })
        ]
      ]
    ]
  ]
]

complete_calls-Yields :
    (codec : Codec) (names : RouterToolNames) (ids : List Text) (partials : PartialCalls)
    → Yields (IsBatch (IsLocal names) ids) (complete_calls codec names ids partials)
unfolding complete_calls
complete_calls-Yields codec names ids [] = record { local = tt; fresh = tt }
complete_calls-Yields codec names ids ((i, partial) ∷ partials) =
    go (complete_call codec names ids partial) (complete_call-Yields codec names ids partial)
      (λ call. complete_calls-Yields codec names (call.id ∷ ids) partials)
  where
    with_call :
        (call : ProviderToolCall) (r : Result ProviderError (List ProviderToolCall))
        → IsCompleted names ids call
        → Yields (IsBatch (IsLocal names) (call.id ∷ ids)) r
        → Yields (IsBatch (IsLocal names) ids) (r >>= λ calls. ok (call ∷ calls))
    with_call call (err e) c b = tt
    with_call call (ok calls) c b = record {
      local = (c.local, b.local);
      fresh = (c.fresh, b.fresh);
    }

    go :
        (r : Result ProviderError ProviderToolCall)
        → Yields (IsCompleted names ids) r
        → ((call : ProviderToolCall)
            → Yields
                (IsBatch (IsLocal names) (call.id ∷ ids))
                (complete_calls codec names (call.id ∷ ids) partials))
        → Yields (IsBatch (IsLocal names) ids) (
            r >>= λ call.
            complete_calls codec names (call.id ∷ ids) partials >>= λ calls. ok (call ∷ calls))
    go (err e) c rest = tt
    go (ok call) c rest =
        with_call call (complete_calls codec names (call.id ∷ ids) partials) c (rest call)

-- The reports of a response, and after them, if it is complete, the calls all at once.
pub data IsAnswer (P : Text → Type 0) : Shown Unit → Type 0 where
  failed :
      (reports : List ProviderEvent) (e : ProviderError)
      → All IsReport reports
      → IsAnswer P (reports, err e)
  completed :
      (reports : List ProviderEvent) (calls : List ProviderToolCall)
      → All IsReport reports
      → IsBatch P [] calls
      → IsAnswer P (reports ++ (map tool_call calls ++ finished ∷ []), ok tt)

conclude_response-Yields :
    (codec : Codec) (names : RouterToolNames) (r : Received) (calls : PartialCalls)
    → Yields (IsBatch (IsLocal names) []) (conclude_response codec names r calls)
unfolding conclude_response
conclude_response-Yields codec names r calls =
    elim (Bool-cases (r.done && is_ended r.finish_reason)) [
      | inl ended ↦ rw ended (complete_calls-Yields codec names [] calls)
      | inr cut ↦ rw cut tt
    ]

and_then-IsAnswer :
    {A : Type 0} (names : RouterToolNames) (m : Shown A) (f : A → Shown Unit)
    → AreReports m
    → ((a : A) → IsAnswer (IsLocal names) (f a))
    → IsAnswer (IsLocal names) (and_then m f)
unfolding and_then
and_then-IsAnswer names (es, err e) f h k = failed es e h.reports
and_then-IsAnswer names (es, ok a) f h k = go (f a) (k a)
  where
    go :
        (r : Shown Unit) → IsAnswer (IsLocal names) r → IsAnswer (IsLocal names) (shown_before es r)
    go _ (failed reports e a) =
        failed (es ++ reports) e (All-append IsReport es reports h.reports a)
    go _ (completed reports calls a b) =
        subst (λ events. IsAnswer (IsLocal names) (events, ok tt))
          (append_assoc es reports (map tool_call calls ++ finished ∷ []))
          (completed (es ++ reports) calls (All-append IsReport es reports h.reports a) b)

shown-IsAnswer :
    (names : RouterToolNames) (r : Result ProviderError (List ProviderToolCall))
    → Yields (IsBatch (IsLocal names) []) r
    → IsAnswer
        (IsLocal names)
        (and_then (silent r) (λ complete. (map tool_call complete ++ finished ∷ [], ok tt)))
unfolding and_then
shown-IsAnswer names (err e) h = failed [] e tt
shown-IsAnswer names (ok calls) h = completed [] calls tt h

pub stream_response-IsAnswer :
    (codec : Codec) (names : RouterToolNames) (api_key : Text) (limit status : ℕ)
    (arrivals : List Arrival)
    → IsAnswer (IsLocal names) (stream_response codec names api_key limit status arrivals)
unfolding stream_response
stream_response-IsAnswer codec names api_key limit status arrivals =
    elim (Bool-cases (leb 200 status && ltb status 300)) [
      | inr refused ↦ rw refused (failed [] (refusal codec api_key status arrivals) tt)
      | inl success ↦ rw success (
          and_then-IsAnswer names _ _ (read_chunks-AreReports codec limit nothing_received arrivals)
            (λ r. and_then-IsAnswer names _ _ (finish_response-AreReports codec r) (λ calls.
              shown-IsAnswer names (conclude_response codec names r calls)
                (conclude_response-Yields codec names r calls))))
    ]
