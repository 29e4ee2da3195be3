-- ===== src/Agent/Sse/Chunks.antt =====
-- The parser of provider.rs on a response that arrives in chunks.
use feather_mesh.Prelude.{
  ℕ, ◌≡◌, refl, sym, ap, subst, concat, ◌∙◌, false, ◌&&◌, Option, none, some, List, [], ◌∷◌, ◌++◌,
  append-nil, Text, Result, ok, err, ◌>>=◌,
}
use feather_mesh.Std.Utf8.{utf8_prefix, scan}
use feather_mesh.Std.Utf8.Prefix.{IsPending, utf8_prefix-IsPending}
use feather_mesh.Agent.Provider.{ProviderError, malformed}
use feather_mesh.Agent.Sse.{
  SseParser, Parsed, new_parser, push_text, push, push_chunks, emitted_before,
}
use feather_mesh.Agent.Sse.Lines.{ends_cr, begins_lf, feed, push_text-feed}
use feather_mesh.Agent.Sse.Pushes.{
  with_undecoded, feed-with_undecoded, pushed_text, pushed, parsed_before, parsed_next,
  pushed-append,
}

some-injective : {A : Type 0} {a b : A} → ◌≡◌ {A = Option A} (some a) (some b) → a ≡ b
some-injective h = cc

pushed_text-IsPending :
    (p : SseParser) (s : List ℕ) (r : Option (List ℕ × List ℕ))
    → utf8_prefix s ≡ r
    → (q : Parsed) → pushed_text p r ≡ some q
    → IsPending q.0.undecoded
pushed_text-IsPending p s none e q h = cc
pushed_text-IsPending p s (some (text, rest)) e q h =
    subst IsPending
      (sym (ap (λ r. r.0.undecoded) (feed-with_undecoded rest p text))
        ∙ ap (λ r. r.0.undecoded) (some-injective h))
      (utf8_prefix-IsPending s text rest e)

-- `push_chunks` without the text of an error.
abbrev pushed_chunks : SseParser → List (List ℕ) → Option Parsed
pushed_chunks p [] = some (p, [])
pushed_chunks p (c ∷ cs) = parsed_next (pushed p c) (λ q. pushed_chunks q cs)

-- No cut is between a carriage return and a line feed.
abbrev pub AreUncut : List (List ℕ) → Type 0
AreUncut [] = Unit
AreUncut (c ∷ cs) = ((ends_cr c && begins_lf (concat cs)) ≡ false) × AreUncut cs

pushed_chunks-whole :
    (p : SseParser) (cs : List (List ℕ))
    → IsPending p.undecoded
    → AreUncut cs
    → pushed_chunks p cs ≡ pushed p (concat cs)
unfolding feed
pushed_chunks-whole p [] pending uncut =
    sym (ap (pushed_text p) (ap utf8_prefix (append-nil p.undecoded) ∙ pending))
pushed_chunks-whole p (c ∷ cs) pending uncut =
    go (pushed p c)
      (pushed_text-IsPending p (p.undecoded ++ c) (utf8_prefix (p.undecoded ++ c)) refl)
      (λ q h. pushed_chunks-whole q cs h uncut.1)
    ∙ sym (pushed-append p c (concat cs) pending uncut.0)
  where
    go :
        (r : Option Parsed)
        → ((q : Parsed) → r ≡ some q → IsPending q.0.undecoded)
        → ((q : SseParser) → IsPending q.undecoded → pushed_chunks q cs ≡ pushed q (concat cs))
        → parsed_next r (λ q. pushed_chunks q cs) ≡ parsed_next r (λ q. pushed q (concat cs))
    go none f g = refl
    go (some q) f g = ap (parsed_before q.1) (g q.0 (f q refl))

-- `Result::ok`
abbrev pub outcome : {A : Type 0} → Result ProviderError A → Option A
outcome (ok a) = some a
outcome (err e) = none

outcome-push :
    (describe : List ℕ → Text) (p : SseParser) (c : List ℕ)
    → outcome (push describe p c) ≡ pushed p c
unfolding push
outcome-push describe p c = go (utf8_prefix (p.undecoded ++ c))
  where
    go :
        (r : Option (List ℕ × List ℕ))
        → outcome (elim r [
          | none ↦ err (malformed (describe (p.undecoded ++ c)))
          | some (text, rest) ↦ ok (push_text (record p { undecoded = rest }) text)
        ])
          ≡ pushed_text p r
    go none = refl
    go (some (text, rest)) = ap some (push_text-feed (with_undecoded rest p) text)

outcome_next :
    (m : Result ProviderError Parsed) (f : SseParser → Result ProviderError Parsed)
    → outcome (m >>= λ r. f r.0 >>= λ rest. ok (emitted_before r.1 rest))
      ≡ parsed_next (outcome m) (λ q. outcome (f q))
outcome_next (err e) f = refl
outcome_next (ok r) f = go (f r.0)
  where
    go :
        (n : Result ProviderError Parsed)
        → outcome (n >>= λ rest. ok (emitted_before r.1 rest)) ≡ parsed_before r.1 (outcome n)
    go (err e) = refl
    go (ok rest) = refl

parsed_next-cong :
    {f g : SseParser → Option Parsed} (r : Option Parsed)
    → ((q : SseParser) → f q ≡ g q)
    → parsed_next r f ≡ parsed_next r g
parsed_next-cong none h = refl
parsed_next-cong (some q) h = ap (parsed_before q.1) (h q.0)

outcome-push_chunks :
    (describe : List ℕ → Text) (p : SseParser) (cs : List (List ℕ))
    → outcome (push_chunks describe p cs) ≡ pushed_chunks p cs
unfolding push_chunks
outcome-push_chunks describe p [] = refl
outcome-push_chunks describe p (c ∷ cs) =
    outcome_next (push describe p c) (λ q. push_chunks describe q cs)
    ∙ rw (outcome-push describe p c)
        (parsed_next-cong (pushed p c) (λ q. outcome-push_chunks describe q cs))

new_parser-IsPending : IsPending []
unfolding utf8_prefix scan
new_parser-IsPending = refl

-- The events of a response and the parser after it, or that its bytes are no UTF-8, do not depend on how
-- the bytes are cut into chunks, if no cut is between a carriage return and a line feed.
pub push_chunks-push :
    (describe : List ℕ → Text) (cs : List (List ℕ))
    → AreUncut cs
    → outcome (push_chunks describe new_parser cs) ≡ outcome (push describe new_parser (concat cs))
push_chunks-push describe cs uncut =
    outcome-push_chunks describe new_parser cs
    ∙ pushed_chunks-whole new_parser cs new_parser-IsPending uncut
    ∙ sym (outcome-push describe new_parser (concat cs))
