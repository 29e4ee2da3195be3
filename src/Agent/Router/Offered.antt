-- ===== src/Agent/Router/Offered.antt =====
-- What `stream_async` of provider.rs shows of a request: only calls of the tools that were sent with it.
use feather_mesh.Prelude.{
  ℕ, ◌≡◌, subst, Bool, true, false, Option, none, some, List, [], ◌∷◌, Text, codes, All, ok,
  Result-cases, inl, inr, if◌then◌else◌, ltb, ok-injective, sym, ap, ◌∙◌, guard, not, ◌||◌, ok_or,
  is_empty, length, >>=-eq-ok, >>-eq-ok, text_eq, text_eq_refl, any, lookup, lookup-insert, arith,
}
use feather_mesh.Agent.Json.{Json}
use feather_mesh.Agent.Profile.{AgentProfile}
use feather_mesh.Agent.Disclosure.{outbound, outbound_messages, Wire}
use feather_mesh.Agent.Provider.{ToolSchema, ModelRequest, protocol, too_large}
use feather_mesh.Agent.Router.{
  no_names, wire_of, tool_items, wire_messages, add_name, add_names, new_names, Codec,
  RouterToolNames, local_name, Shown, and_then,
}
use feather_mesh.Agent.Router.Stream.{wire_request, Client, encode_request, stream_async}
use feather_mesh.Agent.Router.Batches.{
  IsLocal, IsAnswer, failed, completed, stream_response-IsAnswer,
}

-- A name of one of the tools.
abbrev pub IsOffered : List ToolSchema → Text → Type 0
IsOffered tools name = any (λ tool. text_eq tool.name name) tools ≡ true

module _ (P : Text → Type 0) where
  -- Every name that a wire name leads to.
  abbrev Leads : RouterToolNames → Type 0
  Leads names = (wire name : Text) → lookup wire names.to_local ≡ some name → P name

  add_name-Leads :
      (names : RouterToolNames) (added wire : Text)
      → P added
      → Leads names
      → Leads (add_name names added wire)
  unfolding add_name
  add_name-Leads names added wire p known j name h =
      go (text_eq wire j) (sym (lookup-insert wire j added names.to_local) ∙ h)
    where
      go : (b : Bool) → (if b then some added else lookup j names.to_local) ≡ some name → P name
      go true e = subst P (cc) p
      go false e = known j name e

  add_names-Leads :
      (names final : RouterToolNames) (tools : List ToolSchema)
      → All (λ tool. P tool.name) tools
      → Leads names
      → add_names names tools ≡ ok final
      → Leads final
  unfolding add_names
  add_names-Leads names final [] ps known h = subst Leads (ok-injective h) known
  add_names-Leads names final (tool ∷ tools) ps known h =
      let (fresh, rest) = >>-eq-ok _ _ final h in
      add_names-Leads (add_name names tool.name (wire_of tool.name)) final tools ps.1
        (add_name-Leads names tool.name (wire_of tool.name) ps.0 known) rest

All-implies :
    {A : Type 0} {P Q : A → Type 0} (xs : List A) → ((a : A) → P a → Q a) → All P xs → All Q xs
All-implies [] f h = tt
All-implies (x ∷ xs) f h = (f x h.0, All-implies xs f h.1)

tools-IsOffered : (tools : List ToolSchema) → All (λ tool. IsOffered tools tool.name) tools
tools-IsOffered [] = tt
tools-IsOffered (tool ∷ tools) = (
  ground (arith, text_eq_refl tool.name),
  All-implies tools (λ t h. ground (arith, h)) (tools-IsOffered tools),
)

IsLocal-IsOffered :
    (tools : List ToolSchema) (names : RouterToolNames) (name : Text)
    → new_names tools ≡ ok names
    → IsLocal names name
    → IsOffered tools name
unfolding new_names local_name
IsLocal-IsOffered tools names name h local =
    add_names-Leads (IsOffered tools) no_names names tools (tools-IsOffered tools) (λ w n e. cc) h
      local.wire name (found (lookup local.wire names.to_local) local.found)
  where
    found :
        (o : Option Text)
        → ok_or o (protocol (codes "provider returned a tool outside the request schema")) ≡ ok name
        → o ≡ some name
    found none e = cc
    found (some n) e = cc

IsAnswer-implies :
    {P Q : Text → Type 0} (r : Shown Unit)
    → ((name : Text) → P name → Q name)
    → IsAnswer P r
    → IsAnswer Q r
IsAnswer-implies _ f (failed reports e h) = failed reports e h
IsAnswer-implies _ f (completed reports calls h b) =
    completed reports calls h
      (record { local = All-implies calls (λ c. f c.name) b.local; fresh = b.fresh })

outbound-tools :
    (w : Wire) (request sent : ModelRequest) (profile : AgentProfile) (secret : Option Text)
    → outbound w request profile secret ≡ ok sent
    → sent.tools ≡ request.tools
unfolding outbound
outbound-tools w request sent profile secret h =
    let (messages, _, k) =
      >>=-eq-ok (outbound_messages w profile secret request.messages) _ sent h in
    let (bytes, _, l) =
      >>=-eq-ok
        (ok_or (w.to_bytes (record request { messages = messages }))
          (protocol (codes "request serialization failed")))
        _ sent k in
    let (_, e) =
      >>-eq-ok
        (guard
          (not (
            ltb profile.max_request_bytes (length bytes)
            || ltb profile.max_context_chars (w.char_count bytes)))
          too_large)
        _ sent l in
    ap (λ (r : ModelRequest). r.tools) (sym (ok-injective e))

wire_request-names :
    (codec : Codec) (schemas : List ToolSchema) (request : ModelRequest)
    (wired : RouterToolNames × List Json × List Json)
    → wire_request codec schemas request ≡ ok wired
    → new_names request.tools ≡ ok wired.0
unfolding wire_request
wire_request-names codec schemas request wired h =
    let (names, e, k) = >>=-eq-ok (new_names request.tools) _ wired h in
    let (tools, _, l) = >>=-eq-ok (tool_items names request.tools) _ wired k in
    let (history, _, m) =
      >>=-eq-ok (new_names (if is_empty request.tools then schemas else request.tools)) _ wired l in
    let (messages, _, n) = >>=-eq-ok (wire_messages codec history request.messages) _ wired m in
    e ∙ ap (λ (r : RouterToolNames × List Json × List Json). ok r.0) (ok-injective n)

encode_request-names :
    (w : Wire) (codec : Codec) (client : Client) (schemas : List ToolSchema)
    (profile : AgentProfile) (api_key : Text) (request : ModelRequest)
    (encoded : RouterToolNames × List ℕ)
    → encode_request w codec client schemas profile api_key request ≡ ok encoded
    → new_names request.tools ≡ ok encoded.0
unfolding encode_request
encode_request-names w codec client schemas profile api_key request encoded h =
    let (sent, e, k) = >>=-eq-ok (outbound w request profile (some api_key)) _ encoded h in
    let (wired, f, l) = >>=-eq-ok (wire_request codec schemas sent) _ encoded k in
    let (bytes, _, m) =
      >>=-eq-ok
        (ok_or (client.body profile wired.1 wired.2)
          (protocol (codes "request serialization failed")))
        _ encoded l in
    let (_, n) =
      >>-eq-ok (guard (not (ltb profile.max_request_bytes (length bytes))) too_large) _ encoded m in
    ap new_names (sym (outbound-tools w request sent profile (some api_key) e))
    ∙ wire_request-names codec schemas sent wired f
    ∙ ap (λ (r : RouterToolNames × List ℕ). ok r.0) (ok-injective n)

-- What is shown of a request to a router: only texts and usage, if the request fails; else also, at the
-- end and all at once, the tool calls and that it is finished. Each call has the name of a tool that was
-- sent with this request, and no two have the same id.
pub stream_async-IsAnswer :
    (w : Wire) (codec : Codec) (client : Client) (schemas : List ToolSchema)
    (profile : AgentProfile) (api_key : Text) (request : ModelRequest)
    → IsAnswer
        (IsOffered request.tools)
        (stream_async w codec client schemas profile api_key request)
unfolding stream_async and_then
stream_async-IsAnswer w codec client schemas profile api_key request =
    elim (Result-cases (encode_request w codec client schemas profile api_key request)) [
      | inr (e, h) ↦ rw h (failed [] e tt)
      | inl (encoded, h) ↦ elim (Result-cases (client.send encoded.1)) [
        | inr (e, k) ↦ rw (h, k) (failed [] e tt)
        | inl (response, k) ↦
            rw (h, k)
              (IsAnswer-implies _
                (λ name.
                  IsLocal-IsOffered request.tools encoded.0 name
                    (encode_request-names w codec client schemas profile api_key request encoded h))
                (stream_response-IsAnswer codec encoded.0 api_key profile.max_response_bytes
                  response.status response.arrivals))
      ]
    ]
