-- ===== src/Agent/Disclosure/Allowed.antt =====
-- What `tool_summary`, `redact` and `outbound` let through.
use feather_mesh.Prelude.{
  ℕ, zero, suc, ◌≤◌, ◌≡◌, refl, ap, subst, Bool, true, false, ◌&&◌, ◌||◌, not, Option, none, some,
  List, [], ◌∷◌, arith, Text, codes, guard, ok_or, ltb, text_eq_iff, length, take, ok, Bool-cases,
  inl, inr, >>=-eq-ok, >>-eq-ok, guard-eq-ok, ok-injective,
}
use feather_mesh.Agent.Json.{
  Json, Items, Fields, null, bool, number, string, array, object, no_items, item, no_fields, field,
  item_count,
}
use feather_mesh.Agent.Profile.{AgentProfile}
use feather_mesh.Agent.Provider.{ModelMessage, ModelRequest, ProviderError, protocol, too_large}
use feather_mesh.Agent.Disclosure.{
  scrub_value, outbound_content, tool_value, redact, is_allowed, tool_summary, summary_items,
  summary_fields, outbound, outbound_message, outbound_messages, Wire,
}

-- At every depth the keys are allowed, the arrays have at most 100 items, and the texts are redacted.
mutual
  pub IsDisclosable : AgentProfile → Json → Type 0
  IsDisclosable profile (object fields) = AreDisclosableFields profile fields
  IsDisclosable profile (array vs) = (item_count vs ≤ 100) × AreDisclosableItems profile vs
  IsDisclosable profile (string s) = (text : Text) × (s ≡ redact text none) × (length text ≤ 1024)
  IsDisclosable profile null = Unit
  IsDisclosable profile (bool b) = Unit
  IsDisclosable profile (number n) = Unit

  pub AreDisclosableItems : AgentProfile → Items → Type 0
  AreDisclosableItems profile no_items = Unit
  AreDisclosableItems profile (item v vs) = IsDisclosable profile v × AreDisclosableItems profile vs

  pub AreDisclosableFields : AgentProfile → Fields → Type 0
  AreDisclosableFields profile no_fields = Unit
  AreDisclosableFields profile (field key v rest) =
      (is_allowed profile key ≡ true) × IsDisclosable profile v × AreDisclosableFields profile rest

length-take : {A : Type 0} (n : ℕ) (xs : List A) → length (take n xs) ≤ n
length-take zero xs = omega arith
length-take (suc n) [] = omega arith
length-take (suc n) (x ∷ xs) = omega (arith, length-take n xs)

item_count-summary_items :
    (profile : AgentProfile) (n : ℕ) (vs : Items) → item_count (summary_items profile n vs) ≤ n
unfolding summary_items item_count
item_count-summary_items profile n no_items = omega arith
item_count-summary_items profile zero (item v vs) = omega arith
item_count-summary_items profile (suc n) (item v vs) =
    omega (arith, item_count-summary_items profile n vs)

mutual
  unfolding tool_summary IsDisclosable

  summary-IsDisclosable :
      (profile : AgentProfile) (v : Json) → IsDisclosable profile (tool_summary profile v)
  summary-IsDisclosable profile (object fields) = summary_fields-AreDisclosableFields profile fields
  summary-IsDisclosable profile (array vs) =
      (item_count-summary_items profile 100 vs, summary_items-AreDisclosableItems profile 100 vs)
  summary-IsDisclosable profile (string s) = (take 1024 s, refl, length-take 1024 s)
  summary-IsDisclosable profile null = tt
  summary-IsDisclosable profile (bool b) = tt
  summary-IsDisclosable profile (number n) = tt

  summary_items-AreDisclosableItems :
      (profile : AgentProfile) (n : ℕ) (vs : Items)
      → AreDisclosableItems profile (summary_items profile n vs)
  summary_items-AreDisclosableItems profile n no_items = tt
  summary_items-AreDisclosableItems profile zero (item v vs) = tt
  summary_items-AreDisclosableItems profile (suc n) (item v vs) =
      (summary-IsDisclosable profile v, summary_items-AreDisclosableItems profile n vs)

  summary_fields-AreDisclosableFields :
      (profile : AgentProfile) (fields : Fields)
      → AreDisclosableFields profile (summary_fields profile fields)
  summary_fields-AreDisclosableFields profile no_fields = tt
  summary_fields-AreDisclosableFields profile (field key v rest) =
      elim (Bool-cases (is_allowed profile key)) [
        | inl e ↦
            rw e
              (e, summary-IsDisclosable profile v, summary_fields-AreDisclosableFields profile rest)
        | inr n ↦ rw n (summary_fields-AreDisclosableFields profile rest)
      ]

-- Whatever a tool answers, its summary has at every depth only keys that are structural or that the
-- profile allows, arrays of at most 100 items, and texts that are redacted from 1024 characters at most.
pub tool_summary-IsDisclosable :
    (profile : AgentProfile) (v : Json) → IsDisclosable profile (tool_summary profile v)
tool_summary-IsDisclosable profile v = summary-IsDisclosable profile v

-- A message that is sent for `m`: a user's text only if the profile allows it, and of a tool's content
-- the scrubbed summary, written as a text.
pub record IsSent (w : Wire) (profile : AgentProfile) (secret : Option Text) (m sent : ModelMessage)
    : Type 0 where
  pub same_role : sent.role ≡ m.role
  pub same_call : sent.tool_call_id ≡ m.tool_call_id
  pub permitted : m.role ≡ codes "user" → profile.allow_user_text ≡ true
  pub summarized :
      m.role ≡ codes "tool"
      → (summary : Json) × IsDisclosable profile summary
        × (sent.content ≡ string (w.to_text (scrub_value secret summary)))

abbrev pub AreSent :
    Wire → AgentProfile → Option Text → List ModelMessage → List ModelMessage → Type 0
AreSent w profile secret [] [] = Unit
AreSent w profile secret [] (s ∷ sent) = ⊥
AreSent w profile secret (m ∷ ms) [] = ⊥
AreSent w profile secret (m ∷ ms) (s ∷ sent) =
    IsSent w profile secret m s × AreSent w profile secret ms sent

permitted_by : (b u : Bool) → not (b && not u) ≡ true → b ≡ true → u ≡ true
permitted_by true true h k = refl
permitted_by true false h k = cc
permitted_by false u h k = cc

ok_or-some : {A : Type 0} (o : Option A) (e : ProviderError) {a : A} → ok_or o e ≡ ok a → o ≡ some a
ok_or-some none e h = cc
ok_or-some (some b) e h = ap some (ok-injective h)

outbound_message-IsSent :
    (w : Wire) (profile : AgentProfile) (secret : Option Text) (m sent : ModelMessage)
    → outbound_message w profile secret m ≡ ok sent
    → IsSent w profile secret m sent
unfolding outbound_message outbound_content
outbound_message-IsSent w profile secret m sent h =
    let (g, e) = >>-eq-ok (guard _ _) _ sent h in
    let allowed = guard-eq-ok _ _ g in
    let same = ok-injective e in
    subst (IsSent w profile secret m) same (record {
      same_role = refl;
      same_call = refl;
      permitted = λ user. permitted_by _ _ allowed ((text_eq_iff m.role (codes "user")).1 user);
      summarized = λ tool. (
        tool_summary profile (tool_value w m.content),
        tool_summary-IsDisclosable profile (tool_value w m.content),
        rw ((text_eq_iff m.role (codes "tool")).1 tool) refl,
      );
    })

outbound_messages-AreSent :
    (w : Wire) (profile : AgentProfile) (secret : Option Text) (ms sent : List ModelMessage)
    → outbound_messages w profile secret ms ≡ ok sent
    → AreSent w profile secret ms sent
unfolding outbound_messages
outbound_messages-AreSent w profile secret [] sent h =
    subst (AreSent w profile secret []) (ok-injective h) tt
outbound_messages-AreSent w profile secret (m ∷ ms) sent h =
    let (s, a, k) = >>=-eq-ok (outbound_message w profile secret m) _ sent h in
    let (others, b, e) = >>=-eq-ok (outbound_messages w profile secret ms) _ sent k in
    subst (AreSent w profile secret (m ∷ ms)) (ok-injective e) (
      outbound_message-IsSent w profile secret m s a,
      outbound_messages-AreSent w profile secret ms others b,
    )

-- The request that leaves the machine: its messages, and its size in bytes and in characters.
pub record IsOutbound (w : Wire) (profile : AgentProfile) (secret : Option Text)
    (request sent : ModelRequest) : Type 0 where
  pub bytes : List ℕ
  pub messages : AreSent w profile secret request.messages sent.messages
  pub same_tools : sent.tools ≡ request.tools
  pub serialized : w.to_bytes sent ≡ some bytes
  pub few_bytes : length bytes ≤ profile.max_request_bytes
  pub few_chars : w.char_count bytes ≤ profile.max_context_chars

-- A request is only sent within the profile's limits on bytes and characters, without a user's text
-- unless the profile allows it, and with summaries in place of what the tools answered.
pub outbound-IsOutbound :
    (w : Wire) (profile : AgentProfile) (secret : Option Text) (request sent : ModelRequest)
    → outbound w request profile secret ≡ ok sent
    → IsOutbound w profile secret request sent
unfolding outbound
outbound-IsOutbound w profile secret request sent h =
    let (messages, a, k) =
      >>=-eq-ok (outbound_messages w profile secret request.messages) _ sent h in
    let (bytes, b, k') =
      >>=-eq-ok
        (ok_or (w.to_bytes (record request { messages = messages }))
          (protocol (codes "request serialization failed")))
        _ sent k in
    let fits = not (
      ltb profile.max_request_bytes (length bytes)
      || ltb profile.max_context_chars (w.char_count bytes)) in
    let (g, e) = >>-eq-ok (guard fits too_large) _ sent k' in
    let limited = guard-eq-ok fits too_large g in
    subst (IsOutbound w profile secret request) (ok-injective e) (record {
      bytes = bytes;
      messages = outbound_messages-AreSent w profile secret request.messages messages a;
      same_tools = refl;
      serialized = ok_or-some _ _ b;
      few_bytes = ground (arith, limited);
      few_chars = ground (arith, limited);
    })
