-- ===== src/Agent/Sse/Lines.antt =====
-- The lines of the parser of provider.rs, one byte at a time.
use feather_mesh.Prelude.{
  ℕ, ◌==◌, ◌≡◌, refl, sym, ap, ◌∙◌, Bool, true, false, ◌&&◌, Option, none, some, List, [], ◌∷◌,
  ◌++◌, append_assoc, append-nil, arith, Text, Bool-cases, inl, inr, if◌then◌else◌,
}
use feather_mesh.Agent.Sse.{
  SseParser, Parsed, process_line, strip_last, cons_text, push_line, or_self, cons_line,
  split_lines, push_part, push_parts, push_text, emitted_before,
}

abbrev pub add_byte : SseParser → ℕ → SseParser
add_byte p c = record p { line = p.line ++ c ∷ [] }

abbrev pub end_line : SseParser → Parsed
end_line p = process_line (record p { line = [] }) p.line

-- Whether a text begins with a line feed, or ends with a carriage return.
abbrev pub begins_lf : Text → Bool
begins_lf [] = false
begins_lf (c ∷ s) = c == 10

abbrev pub ends_cr : Text → Bool
ends_cr [] = false
ends_cr (c ∷ []) = c == 13
ends_cr (c ∷ d ∷ s) = ends_cr (d ∷ s)

unfoldable pub feed : SseParser → Text → Parsed
feed p [] = (p, [])
feed p (c ∷ s) =
    let after = feed (end_line p).0 s in
    let added = feed (add_byte p c) s in
    if c == 10
    then emitted_before (end_line p).1 after
    else if c == 13 && begins_lf s
    then feed p s
    else added

strip_last_nothing : (c d : ℕ) (part : Text) → strip_last c (d ∷ part) ≡ some [] → (d == c) ≡ true
unfolding strip_last
strip_last_nothing c d [] h = elim (Bool-cases (d == c)) [
  | inl e ↦ e
  | inr n ↦ absurd (ground (arith, h, n))
]
strip_last_nothing c d (e ∷ part) h = absurd (go (strip_last c (e ∷ part)) h)
  where
    go : (r : Option Text) → cons_text d r ≡ some [] → ⊥
    go none g = cc
    go (some t) g = cc

or_self-cons_text :
    (c : ℕ) (r : Option Text) (t : Text) → or_self (cons_text c r) (c ∷ t) ≡ c ∷ or_self r t
or_self-cons_text c none t = refl
or_self-cons_text c (some u) t = refl

no_cr : (c d : ℕ) → (c == 13 && d == 10) ≡ false → (d == 10) ≡ true → (c == 13) ≡ false
no_cr c d k e = ground (arith, k, e)

add_byte-line :
    (p : SseParser) (c d : ℕ) (part : Text) (r : Option Text)
    → (c == 13 && d == 10) ≡ false
    → strip_last 10 (d ∷ part) ≡ r
    → push_line p (c ∷ d ∷ part) (cons_text c r) ≡ push_line (add_byte p c) (d ∷ part) r
unfolding push_line strip_last
add_byte-line p c d part none k e =
    ap (λ t. (record p { line = t }, [])) (sym (append_assoc p.line (c ∷ []) (d ∷ part)))
add_byte-line p c d part (some []) k e =
    rw (no_cr c d k (strip_last_nothing 10 d part e))
      (ap (λ t. process_line (record p { line = [] }) t) (sym (append-nil (p.line ++ c ∷ []))))
add_byte-line p c d part (some (x ∷ l)) k e =
    ap (λ t. process_line (record p { line = [] }) t)
      (ap (λ t. p.line ++ t) (or_self-cons_text c (strip_last 13 (x ∷ l)) (x ∷ l))
        ∙ sym (append_assoc p.line (c ∷ []) (or_self (strip_last 13 (x ∷ l)) (x ∷ l))))

add_byte-part :
    (p : SseParser) (c : ℕ) (part : Text)
    → (c == 10) ≡ false
    → (c == 13 && begins_lf part) ≡ false
    → push_part p (c ∷ part) ≡ push_part (add_byte p c) part
unfolding push_part push_line strip_last
add_byte-part p c [] h k =
    rw h (ap (λ t. (record p { line = t }, [])) (sym (append-nil (p.line ++ c ∷ []))))
add_byte-part p c (d ∷ part) h k = add_byte-line p c d part (strip_last 10 (d ∷ part)) k refl

-- The first part of a text begins as the text does.
record IsSplit (c : ℕ) (parts : List Text) : Type 0 where
  part : Text
  others : List Text
  whole : parts ≡ (c ∷ part) ∷ others

cons_line-IsSplit : (c : ℕ) (parts : List Text) → IsSplit c (cons_line c parts)
unfolding cons_line
cons_line-IsSplit c [] = record { part = []; others = []; whole = refl }
cons_line-IsSplit c (p ∷ ps) = record { part = p; others = ps; whole = refl }

split_lines-IsSplit : (c : ℕ) (s : Text) → IsSplit c (split_lines (c ∷ s))
unfolding split_lines
split_lines-IsSplit c s = elim (Bool-cases (c == 10)) [
  | inl lf ↦ record { part = []; others = split_lines s; whole = rw lf refl }
  | inr other ↦
      let split = cons_line-IsSplit c (split_lines s) in
      record { part = split.part; others = split.others; whole = rw other split.whole }
]

push_parts-lf :
    (p : SseParser) (parts : List Text)
    → push_parts p ((10 ∷ []) ∷ parts)
      ≡ emitted_before (end_line p).1 (push_parts (end_line p).0 parts)
unfolding push_parts push_part push_line strip_last
push_parts-lf p parts = rw (append-nil p.line) refl

push_parts-cr_lf :
    (p : SseParser) (parts : List Text)
    → push_parts p ((13 ∷ 10 ∷ []) ∷ parts) ≡ push_parts p ((10 ∷ []) ∷ parts)
unfolding push_parts push_part push_line strip_last
push_parts-cr_lf p parts = refl

push_parts-add_byte :
    (p : SseParser) (c : ℕ) (part : Text) (parts : List Text)
    → (c == 10) ≡ false
    → (c == 13 && begins_lf part) ≡ false
    → push_parts p ((c ∷ part) ∷ parts) ≡ push_parts (add_byte p c) (part ∷ parts)
unfolding push_parts
push_parts-add_byte p c part parts h k = rw (add_byte-part p c part h k) refl

push_text-lf :
    (p : SseParser) (s : Text)
    → push_text p (10 ∷ s) ≡ emitted_before (end_line p).1 (push_text (end_line p).0 s)
unfolding push_text split_lines
push_text-lf p s = push_parts-lf p (split_lines s)

push_text-cr_lf : (p : SseParser) (s : Text) → push_text p (13 ∷ 10 ∷ s) ≡ push_text p (10 ∷ s)
unfolding push_text split_lines cons_line
push_text-cr_lf p s = push_parts-cr_lf p (split_lines s)

push_text-none : (p : SseParser) → push_text p [] ≡ (p, [])
unfolding push_text split_lines push_parts
push_text-none p = refl

==-eq : (c d : ℕ) → (c == d) ≡ true → c ≡ d
==-eq c d h = ground (arith, h)

push_text-cr :
    (p : SseParser) (c : ℕ) (s : Text)
    → (c == 13 && begins_lf s) ≡ true
    → push_text p (c ∷ s) ≡ push_text p s
push_text-cr p c [] h = absurd (ground (arith, h))
push_text-cr p c (d ∷ s) h =
    rw (==-eq c 13 (ground (arith, h)), ==-eq d 10 (ground (arith, h))) (push_text-cr_lf p s)

push_text-cons :
    (p : SseParser) (c : ℕ) (s : Text)
    → (c == 10) ≡ false
    → push_text p (c ∷ s) ≡ push_parts p (cons_line c (split_lines s))
unfolding push_text split_lines
push_text-cons p c s h = rw h refl

push_part-one :
    (p : SseParser) (c : ℕ) → (c == 10) ≡ false → push_part p (c ∷ []) ≡ (add_byte p c, [])
unfolding push_part push_line strip_last
push_part-one p c h = rw h refl

push_text-one :
    (p : SseParser) (c : ℕ) → (c == 10) ≡ false → push_text p (c ∷ []) ≡ push_text (add_byte p c) []
unfolding push_text split_lines cons_line push_parts
push_text-one p c h = push_text-cons p c [] h ∙ rw (push_part-one p c h) refl

push_text-add_byte :
    (p : SseParser) (c : ℕ) (s : Text)
    → (c == 10) ≡ false
    → (c == 13 && begins_lf s) ≡ false
    → push_text p (c ∷ s) ≡ push_text (add_byte p c) s
unfolding push_text cons_line
push_text-add_byte p c [] h k = push_text-one p c h
push_text-add_byte p c (d ∷ s) h k =
    let split = split_lines-IsSplit d s in
    push_text-cons p c (d ∷ s) h
    ∙ rw split.whole (push_parts-add_byte p c (d ∷ split.part) split.others h k)

pub push_text-feed : (p : SseParser) (s : Text) → push_text p s ≡ feed p s
unfolding feed
push_text-feed p [] = push_text-none p
push_text-feed p (c ∷ s) = elim (Bool-cases (c == 10)) [
  | inl lf ↦ rw (lf, ==-eq c 10 lf) (push_text-lf p s ∙ rw (push_text-feed (end_line p).0 s) refl)
  | inr other ↦ elim (Bool-cases (c == 13 && begins_lf s)) [
    | inl cr ↦ rw (other, cr) (push_text-cr p c s cr ∙ push_text-feed p s)
    | inr plain ↦
        rw (other, plain) (push_text-add_byte p c s other plain ∙ push_text-feed (add_byte p c) s)
  ]
]

abbrev pub feed_on : Parsed → Text → Parsed
feed_on r s = emitted_before r.1 (feed r.0 s)

feed_on-before :
    (es : List Text) (r : Parsed) (s : Text)
    → emitted_before es (feed_on r s) ≡ feed_on (emitted_before es r) s
feed_on-before es r s = ap (λ t. ((feed r.0 s).0, t)) (sym (append_assoc es r.1 (feed r.0 s).1))

begins_lf-append :
    (c : ℕ) (s t : Text)
    → (ends_cr (c ∷ s) && begins_lf t) ≡ false
    → (c == 13 && begins_lf (s ++ t)) ≡ (c == 13 && begins_lf s)
begins_lf-append c [] t h = ground (arith, h)
begins_lf-append c (d ∷ s) t h = refl

ends_cr-tail :
    (c : ℕ) (s t : Text)
    → (ends_cr (c ∷ s) && begins_lf t) ≡ false
    → (ends_cr s && begins_lf t) ≡ false
ends_cr-tail c [] t h = refl
ends_cr-tail c (d ∷ s) t h = h

pub feed-append :
    (p : SseParser) (s t : Text)
    → (ends_cr s && begins_lf t) ≡ false
    → feed p (s ++ t) ≡ feed_on (feed p s) t
unfolding feed
feed-append p [] t h = refl
feed-append p (c ∷ s) t h =
    let k = ends_cr-tail c s t h in
    elim (Bool-cases (c == 10)) [
      | inl lf ↦
          rw (lf, feed-append (end_line p).0 s t k)
            (feed_on-before (end_line p).1 (feed (end_line p).0 s) t)
      | inr other ↦ elim (Bool-cases (c == 13 && begins_lf s)) [
        | inl cr ↦ rw (other, begins_lf-append c s t h, cr) (feed-append p s t k)
        | inr plain ↦ rw (other, begins_lf-append c s t h, plain) (feed-append (add_byte p c) s t k)
      ]
    ]
