-- ===== src/Agent/Harness/Requests.antt =====
-- `bounded_request` of harness.rs: it removes turns until the request fits, and comes to an end.
use feather_mesh.Prelude.{
  ℕ, zero, suc, ◌-◌, ◌≤◌, ◌<◌, ◌≡◌, refl, Bool, true, false, not, Option, none, some, List, [], ◌∷◌,
  arith, codes, text_eq, length, length-drop, Bool-cases, Option-cases, Result-cases, inl, inr,
  Result, ok, err,
}
use feather_mesh.Agent.Provider.{ModelMessage, ModelRequest, ProviderError}
use feather_mesh.Agent.Profile.{AgentProfile}
use feather_mesh.Agent.Disclosure.{outbound}
use feather_mesh.Agent.Harness.{
  Outside, user_places, drain_from_first, second_of_many, request_of, bounded_request,
}

-- The first message is not a user's.
abbrev pub is_led : List ModelMessage → Bool
is_led [] = true
is_led (m ∷ rest) = not (text_eq m.role (codes "user"))

-- The answer is there, and the messages that are kept still begin without a user's.
pub record IsRequested (answer : Option (List ModelMessage × Result ProviderError ModelRequest))
    : Type 0 where
  pub messages : List ModelMessage
  pub result : Result ProviderError ModelRequest
  pub answered : answer ≡ some (messages, result)
  pub led : is_led messages ≡ true

-- All places are at least `n`.
abbrev AreFrom : ℕ → List ℕ → Type 0
AreFrom n [] = Unit
AreFrom n (a ∷ places) = (n ≤ a) × AreFrom (suc a) places

AreFrom-weaken : (n : ℕ) (places : List ℕ) → AreFrom (suc n) places → AreFrom n places
AreFrom-weaken n [] h = tt
AreFrom-weaken n (a ∷ places) h = (omega (arith, h.0), h.1)

user_places-AreFrom : (n : ℕ) (ms : List ModelMessage) → AreFrom n (user_places n ms)
unfolding user_places
user_places-AreFrom n [] = tt
user_places-AreFrom n (m ∷ rest) = elim (Bool-cases (text_eq m.role (codes "user"))) [
  | inl h ↦ rw h (omega arith, user_places-AreFrom (suc n) rest)
  | inr h ↦ rw h (AreFrom-weaken n (user_places (suc n) rest) (user_places-AreFrom (suc n) rest))
]

second-above :
    (n end : ℕ) (places : List ℕ) → AreFrom n places → second_of_many places ≡ some end → n < end
second-above n end [] f h = cc
second-above n end (a ∷ []) f h = cc
second-above n end (a ∷ b ∷ []) f h = cc
second-above n end (a ∷ b ∷ c ∷ rest) (p, q) h = ground (arith, p, q.0, h)

drain-smaller :
    (end : ℕ) (m : ModelMessage) (rest : List ModelMessage)
    → 1 < end
    → second_of_many (user_places 1 rest) ≡ some end
    → length (drain_from_first end (m ∷ rest)) ≤ length rest
unfolding user_places
drain-smaller end m [] h k = cc
drain-smaller end m (r ∷ rest) h k = omega (arith, h, length-drop (end - 1) (r ∷ rest))

drain-shrinks :
    (end : ℕ) (ms : List ModelMessage)
    → is_led ms ≡ true
    → second_of_many (user_places 0 ms) ≡ some end
    → (length (drain_from_first end ms) < length ms) × (is_led (drain_from_first end ms) ≡ true)
unfolding user_places
drain-shrinks end [] led k = cc
drain-shrinks end (m ∷ rest) led k =
    let other : text_eq m.role (codes "user") ≡ false = ground (arith, led) in
    let places : second_of_many (user_places 1 rest) ≡ some end = rw other at k in
    let above = second-above 1 end (user_places 1 rest) (user_places-AreFrom 1 rest) places in
    (omega (arith, drain-smaller end m rest above places), led)

-- Each removal leaves fewer messages, so as many steps as there are messages, and one, are enough.
pub bounded_request-IsRequested :
    (fuel : ℕ) (o : Outside) (guided : Bool) (profile : AgentProfile) (ms : List ModelMessage)
    → length ms < fuel
    → is_led ms ≡ true
    → IsRequested (bounded_request fuel o guided profile ms)
unfolding bounded_request
bounded_request-IsRequested zero o guided profile ms few led = absurd (omega (arith, few))
bounded_request-IsRequested (suc fuel) o guided profile ms few led =
    elim (Result-cases (outbound o.wire (request_of o guided profile ms) profile none)) [
      | inl (request, h) ↦
          rw h (record { messages = ms; result = ok request; answered = refl; led = led })
      | inr (e, h) ↦ elim (Option-cases (second_of_many (user_places 0 ms))) [
        | inl k ↦ rw (h, k) (record { messages = ms; result = err e; answered = refl; led = led })
        | inr (end, k) ↦
            let (smaller, still_led) = drain-shrinks end ms led k in
            rw (h, k)
              (bounded_request-IsRequested fuel o guided profile (drain_from_first end ms)
                (omega (arith, smaller, few)) still_led)
      ]
    ]
