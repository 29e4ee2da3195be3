-- ===== src/Agent/Sse/Pushes.antt =====
-- Two chunks for the parser of provider.rs, one after the other.
use feather_mesh.Prelude.{
  ℕ, ◌==◌, ◌≡◌, refl, sym, ap, subst, ◌∙◌, Bool, true, false, ◌&&◌, Option, none, some, List, [],
  ◌∷◌, ◌++◌, append_assoc, append-nil, arith, Text, Bool-cases, is_empty, starts_with, codes, inl,
  inr,
}
use feather_mesh.Std.Str.{strip_prefix}
use feather_mesh.Std.Utf8.{utf8_prefix}
use feather_mesh.Std.Utf8.Prefix.{
  utf8_prefix-append, text_before, text_next, IsPending, utf8_prefix-IsPending, utf8_prefix-whole,
  text_injective, IsPending-line_feed,
}
use feather_mesh.Agent.Sse.{SseParser, Parsed, add_data, process_line, emitted_before}
use feather_mesh.Agent.Sse.Lines.{ends_cr, begins_lf, feed, feed-append, add_byte, end_line}

abbrev pub with_undecoded : List ℕ → SseParser → SseParser
with_undecoded u p = record p { undecoded = u }

add_data-with_undecoded :
    (u : List ℕ) (p : SseParser) (d : Option Text)
    → add_data (with_undecoded u p) d ≡ with_undecoded u (add_data p d)
add_data-with_undecoded u p none = refl
add_data-with_undecoded u p (some d) = refl

process_line-with_undecoded :
    (u : List ℕ) (p : SseParser) (line : Text)
    → process_line (with_undecoded u p) line
      ≡ (with_undecoded u (process_line p line).0, (process_line p line).1)
unfolding process_line
process_line-with_undecoded u p line = elim (Bool-cases (is_empty line)) [
  | inl blank ↦ elim (Bool-cases (is_empty p.data_lines)) [
    | inl nothing ↦ rw (blank, nothing) refl
    | inr some_data ↦ rw (blank, some_data) refl
  ]
  | inr full ↦ elim (Bool-cases (starts_with (codes ":") line)) [
    | inl comment ↦ rw (full, comment) refl
    | inr plain ↦
        rw (full, plain)
          (ap (λ q. (q, [])) (add_data-with_undecoded u p (strip_prefix (codes "data:") line)))
  ]
]

pub feed-with_undecoded :
    (u : List ℕ) (p : SseParser) (s : Text)
    → feed (with_undecoded u p) s ≡ (with_undecoded u (feed p s).0, (feed p s).1)
unfolding feed
feed-with_undecoded u p [] = refl
feed-with_undecoded u p (c ∷ s) = elim (Bool-cases (c == 10)) [
  | inl lf ↦
      let ended = process_line-with_undecoded u (record p { line = [] }) p.line in
      rw (lf, ended)
        (ap (λ r. emitted_before (end_line p).1 r) (feed-with_undecoded u (end_line p).0 s))
  | inr other ↦ elim (Bool-cases (c == 13 && begins_lf s)) [
    | inl cr ↦ rw (other, cr) (feed-with_undecoded u p s)
    | inr plain ↦ rw (other, plain) (feed-with_undecoded u (add_byte p c) s)
  ]
]

-- `push` without the text of an error.
abbrev pub pushed_text : SseParser → Option (List ℕ × List ℕ) → Option Parsed
pushed_text p none = none
pushed_text p (some (t, rest)) = some (feed (with_undecoded rest p) t)

abbrev pub pushed : SseParser → List ℕ → Option Parsed
pushed p bytes = pushed_text p (utf8_prefix (p.undecoded ++ bytes))

abbrev pub parsed_before : List Text → Option Parsed → Option Parsed
parsed_before es none = none
parsed_before es (some r) = some (emitted_before es r)

abbrev pub parsed_next : Option Parsed → (SseParser → Option Parsed) → Option Parsed
parsed_next none f = none
parsed_next (some r) f = parsed_before r.1 (f r.0)

ends_cr-append : (s : List ℕ) (c : ℕ) (t : List ℕ) → ends_cr (s ++ c ∷ t) ≡ ends_cr (c ∷ t)
ends_cr-append [] c t = refl
ends_cr-append (d ∷ []) c t = refl
ends_cr-append (d ∷ e ∷ s) c t = ends_cr-append (e ∷ s) c t

begins_lf-more : (s t : List ℕ) → begins_lf s ≡ true → begins_lf (s ++ t) ≡ true
begins_lf-more [] t h = cc
begins_lf-more (c ∷ s) t h = h

-- A text that is not held back ends as the chunk does.
ends_cr-text :
    (u s text : List ℕ)
    → IsPending u
    → utf8_prefix (u ++ s) ≡ some (text, [])
    → ends_cr s ≡ false
    → ends_cr text ≡ false
ends_cr-text u [] text pending h k =
    ap ends_cr (sym (text_injective (sym (ap utf8_prefix (append-nil u) ∙ pending) ∙ h)).1)
ends_cr-text u (c ∷ s) text pending h k =
    ap ends_cr (sym (append-nil text) ∙ utf8_prefix-whole (u ++ c ∷ s) text [] h)
    ∙ ends_cr-append u c s
    ∙ k

not_and : (a b : Bool) → (a && b) ≡ false → b ≡ true → a ≡ false
not_and a b h k = ground (arith, h, k)

-- No line feed begins the text after one that ends with a carriage return.
cut_text :
    (u s t text after rest later : List ℕ)
    → IsPending u
    → (ends_cr s && begins_lf t) ≡ false
    → utf8_prefix (u ++ s) ≡ some (text, rest)
    → utf8_prefix (rest ++ t) ≡ some (after, later)
    → begins_lf after ≡ true
    → ends_cr text ≡ false
cut_text u s t text after [] later pending uncut h k lf = ends_cr-text u s text pending h (
    not_and (ends_cr s) (begins_lf t) uncut
      (ap begins_lf (sym (utf8_prefix-whole t after later k)) ∙ begins_lf-more after later lf))
cut_text u s t text after (c ∷ rest) later pending uncut h k lf =
    let begins =
      ap begins_lf (sym (utf8_prefix-whole (c ∷ rest ++ t) after later k))
      ∙ begins_lf-more after later lf in
    absurd (
      IsPending-line_feed rest (
        subst (λ d. IsPending (d ∷ rest)) (ground (arith, begins))
          (utf8_prefix-IsPending (u ++ s) text (c ∷ rest) h)))

push_rest :
    (p : SseParser) (t text rest : List ℕ) (r : Option (List ℕ × List ℕ))
    → utf8_prefix (rest ++ t) ≡ r
    → ((after later : List ℕ) → r ≡ some (after, later) → (ends_cr text && begins_lf after) ≡ false)
    → pushed_text p (text_before text r)
      ≡ parsed_next (pushed_text p (some (text, rest))) (λ q. pushed q t)
push_rest p t text rest none e uncut = rw (feed-with_undecoded rest p text, e) refl
push_rest p t text rest (some (after, later)) e uncut =
    rw (feed-with_undecoded rest p text, e)
      (ap some (
        feed-append (with_undecoded later p) text after (uncut after later refl)
        ∙ rw (feed-with_undecoded later p text) refl))

both_false : (a b : Bool) → (b ≡ true → a ≡ false) → (a && b) ≡ false
both_false a true h = rw (h refl) refl
both_false true false h = refl
both_false false false h = refl

pub pushed-append :
    (p : SseParser) (s t : List ℕ)
    → IsPending p.undecoded
    → (ends_cr s && begins_lf t) ≡ false
    → pushed p (s ++ t) ≡ parsed_next (pushed p s) (λ q. pushed q t)
pushed-append p s t pending uncut =
    rw (sym (append_assoc p.undecoded s t), utf8_prefix-append (p.undecoded ++ s) t)
      (go (utf8_prefix (p.undecoded ++ s)) refl)
  where
    go :
        (r : Option (List ℕ × List ℕ))
        → utf8_prefix (p.undecoded ++ s) ≡ r
        → pushed_text p (text_next r (λ rest. utf8_prefix (rest ++ t)))
          ≡ parsed_next (pushed_text p r) (λ q. pushed q t)
    go none e = refl
    go (some (text, rest)) e =
        push_rest p t text rest (utf8_prefix (rest ++ t)) refl (λ after later k.
          both_false (ends_cr text) (begins_lf after)
            (cut_text p.undecoded s t text after rest later pending uncut e k))
