-- ===== src/Std/Utf8/Prefix.antt =====
-- The longest valid text of bytes that arrive in two parts.
use feather_mesh.Prelude.{
  ℕ, zero, suc, leb, ◌≡◌, refl, sym, ap, subst, ◌∙◌, ◌&&◌, Option, none, some, List, [], ◌∷◌, ◌++◌,
  append_assoc, append-nil, Bool-cases, inl, inr,
}
use feather_mesh.Std.Utf8.{
  Scan, no_scan, scan, scan_byte, take_byte, continue_character, begin_character, lead,
  scanned_before, scanned_next, utf8_prefix,
}

scanned_before-twice :
    (s t : List ℕ) (r : Option (List ℕ × Scan))
    → scanned_before s (scanned_before t r) ≡ scanned_before (s ++ t) r
scanned_before-twice s t none = refl
scanned_before-twice s t (some (u, st)) = ap (λ x. some (x, st)) (sym (append_assoc s t u))

abbrev scan_on : Option (List ℕ × Scan) → List ℕ → Option (List ℕ × Scan)
scan_on r s = scanned_next r (λ st. scan st s)

scanned_before-scan_on :
    (t : List ℕ) (r : Option (List ℕ × Scan)) (s : List ℕ)
    → scanned_before t (scan_on r s) ≡ scan_on (scanned_before t r) s
scanned_before-scan_on t none s = refl
scanned_before-scan_on t (some (u, st)) s = scanned_before-twice t u (scan st s)

scanned_before_nothing : (r : Option (List ℕ × Scan)) → scanned_before [] r ≡ r
scanned_before_nothing none = refl
scanned_before_nothing (some (u, st)) = refl

scanned_next-append :
    (r : Option (List ℕ × Scan)) (s t : List ℕ)
    → ((st : Scan) → scan st (s ++ t) ≡ scan_on (scan st s) t)
    → scanned_next r (λ st. scan st (s ++ t)) ≡ scan_on (scanned_next r (λ st. scan st s)) t
scanned_next-append none s t h = refl
scanned_next-append (some (u, st)) s t h =
    ap (scanned_before u) (h st) ∙ scanned_before-scan_on u (scan st s) t

scan-append : (st : Scan) (s t : List ℕ) → scan st (s ++ t) ≡ scan_on (scan st s) t
unfolding scan
scan-append st [] t = sym (scanned_before_nothing (scan st t))
scan-append st (c ∷ s) t = scanned_next-append (scan_byte st c) s t (λ next. scan-append next s t)

-- The bytes that are held lead to the state.
abbrev IsReached : Scan → Type 0
IsReached st = scan no_scan st.held ≡ some ([], st)

abbrev AreReached : Option (List ℕ × Scan) → Type 0
AreReached none = Unit
AreReached (some (t, st)) = IsReached st

scan-one : (st : Scan) (c : ℕ) → scan st (c ∷ []) ≡ scan_byte st c
unfolding scan
scan-one st c = go (scan_byte st c)
  where
    go : (r : Option (List ℕ × Scan)) → scanned_next r (λ st. some ([], st)) ≡ r
    go none = refl
    go (some (t, st)) = ap (λ x. some (x, st)) (append-nil t)

begin-AreReached : (c : ℕ) (r : Option (ℕ × ℕ × ℕ)) → lead c ≡ r → AreReached (begin_character c r)
unfolding begin_character scan scan_byte take_byte
begin-AreReached c none h = tt
begin-AreReached c (some (zero, l, k)) h = refl
begin-AreReached c (some (suc n, l, k)) h = rw h refl

take_byte-AreReached :
    (held : List ℕ) (missing low high c : ℕ)
    → IsReached (record { held = held; missing = missing; low = low; high = high })
    → AreReached (take_byte held missing low high c)
unfolding take_byte continue_character scan
take_byte-AreReached held zero low high c h = begin-AreReached c (lead c) refl
take_byte-AreReached held (suc zero) low high c h = elim (Bool-cases (leb low c && leb c high)) [
  | inr out ↦ rw out tt
  | inl within ↦ rw within refl
]
take_byte-AreReached held (suc (suc n)) low high c h = elim (Bool-cases (leb low c && leb c high)) [
  | inr out ↦ rw out tt
  | inl within ↦
      let st : Scan = record { held = held; missing = suc (suc n); low = low; high = high } in
      rw within (scan-append no_scan held (c ∷ []) ∙ rw (h, scan-one st c, within) refl)
]

AreReached-before :
    (t : List ℕ) (r : Option (List ℕ × Scan)) → AreReached r → AreReached (scanned_before t r)
AreReached-before t none h = tt
AreReached-before t (some (u, st)) h = h

AreReached-next :
    (r : Option (List ℕ × Scan)) (f : Scan → Option (List ℕ × Scan))
    → AreReached r
    → ((st : Scan) → IsReached st → AreReached (f st))
    → AreReached (scanned_next r f)
AreReached-next none f a g = tt
AreReached-next (some (t, st)) f a g = AreReached-before t (f st) (g st a)

scan-AreReached : (st : Scan) (s : List ℕ) → IsReached st → AreReached (scan st s)
unfolding scan scan_byte
scan-AreReached st [] h = h
scan-AreReached st (c ∷ s) h =
    AreReached-next (scan_byte st c) (λ next. scan next s)
      (take_byte-AreReached st.held st.missing st.low st.high c h) (λ next. scan-AreReached next s)

-- A prefix's text and the bytes that it leaves, with the text of what follows.
abbrev pub text_before : List ℕ → Option (List ℕ × List ℕ) → Option (List ℕ × List ℕ)
text_before t none = none
text_before t (some (u, rest)) = some (t ++ u, rest)

abbrev pub text_next :
    Option (List ℕ × List ℕ) → (List ℕ → Option (List ℕ × List ℕ)) → Option (List ℕ × List ℕ)
text_next none f = none
text_next (some (t, rest)) f = text_before t (f rest)

abbrev text_of : Option (List ℕ × Scan) → Option (List ℕ × List ℕ)
text_of none = none
text_of (some (t, st)) = some (t, st.held)

text_of-before :
    (t : List ℕ) (r : Option (List ℕ × Scan))
    → text_of (scanned_before t r) ≡ text_before t (text_of r)
text_of-before t none = refl
text_of-before t (some (u, st)) = refl

utf8_prefix-text_of : (s : List ℕ) → utf8_prefix s ≡ text_of (scan no_scan s)
unfolding utf8_prefix
utf8_prefix-text_of s = go (scan no_scan s)
  where
    go :
        (r : Option (List ℕ × Scan))
        → (elim r [ none ↦ none | some (t, st) ↦ some (t, st.held) ]) ≡ text_of r
    go none = refl
    go (some (t, st)) = refl

no_scan-IsReached : IsReached no_scan
unfolding scan
no_scan-IsReached = refl

pub utf8_prefix-append :
    (s t : List ℕ)
    → utf8_prefix (s ++ t) ≡ text_next (utf8_prefix s) (λ rest. utf8_prefix (rest ++ t))
utf8_prefix-append s t =
    rw (utf8_prefix-text_of (s ++ t), utf8_prefix-text_of s, scan-append no_scan s t)
      (go (scan no_scan s) (scan-AreReached no_scan s no_scan-IsReached))
  where
    go :
        (r : Option (List ℕ × Scan))
        → AreReached r
        → text_of (scan_on r t) ≡ text_next (text_of r) (λ rest. utf8_prefix (rest ++ t))
    go none a = refl
    go (some (u, st)) a =
        text_of-before u (scan st t)
        ∙ ap (text_before u) (
            rw (utf8_prefix-text_of (st.held ++ t), scan-append no_scan st.held t, a)
              (ap text_of (sym (scanned_before_nothing (scan st t)))))

pub text_injective :
    {t u r q : List ℕ}
    → ◌≡◌ {A = Option (List ℕ × List ℕ)} (some (t, r)) (some (u, q))
    → (r ≡ q) × (t ≡ u)
text_injective h = (cc, cc)

-- What is left of a valid prefix has no text of its own.
abbrev pub IsPending : List ℕ → Type 0
IsPending s = utf8_prefix s ≡ some ([], s)

pub utf8_prefix-IsPending : (s t rest : List ℕ) → utf8_prefix s ≡ some (t, rest) → IsPending rest
utf8_prefix-IsPending s t rest h =
    go (scan no_scan s) (scan-AreReached no_scan s no_scan-IsReached)
      (sym (utf8_prefix-text_of s) ∙ h)
  where
    go : (r : Option (List ℕ × Scan)) → AreReached r → text_of r ≡ some (t, rest) → IsPending rest
    go none a e = cc
    go (some (u, st)) a e =
        subst IsPending (text_injective e).0 (utf8_prefix-text_of st.held ∙ ap text_of a)

-- Nothing is held between two characters.
abbrev IsTidy : List ℕ → ℕ → Type 0
IsTidy held zero = held ≡ []
IsTidy held (suc n) = Unit

-- A scan drops no byte.
abbrev Keeps : List ℕ → Option (List ℕ × Scan) → Type 0
Keeps whole none = Unit
Keeps whole (some (t, st)) = (t ++ st.held ≡ whole) × IsTidy st.held st.missing

begin_character-Keeps : (c : ℕ) (r : Option (ℕ × ℕ × ℕ)) → Keeps (c ∷ []) (begin_character c r)
unfolding begin_character
begin_character-Keeps c none = tt
begin_character-Keeps c (some (zero, l, k)) = (refl, refl)
begin_character-Keeps c (some (suc n, l, k)) = (refl, tt)

take_byte-Keeps :
    (held : List ℕ) (missing low high c : ℕ)
    → IsTidy held missing
    → Keeps (held ++ c ∷ []) (take_byte held missing low high c)
unfolding take_byte continue_character
take_byte-Keeps held zero low high c h = rw h (begin_character-Keeps c (lead c))
take_byte-Keeps held (suc zero) low high c h = elim (Bool-cases (leb low c && leb c high)) [
  | inr out ↦ rw out tt
  | inl within ↦ rw within (append-nil (held ++ c ∷ []), refl)
]
take_byte-Keeps held (suc (suc n)) low high c h = elim (Bool-cases (leb low c && leb c high)) [
  | inr out ↦ rw out tt
  | inl within ↦ rw within (refl, tt)
]

Keeps-before :
    (t whole : List ℕ) (r : Option (List ℕ × Scan))
    → Keeps whole r
    → Keeps (t ++ whole) (scanned_before t r)
Keeps-before t whole none h = tt
Keeps-before t whole (some (u, st)) h = (append_assoc t u st.held ∙ ap (λ x. t ++ x) h.0, h.1)

Keeps-next :
    (r : Option (List ℕ × Scan)) (f : Scan → Option (List ℕ × Scan)) (whole s : List ℕ)
    → Keeps whole r
    → ((st : Scan) → IsTidy st.held st.missing → Keeps (st.held ++ s) (f st))
    → Keeps (whole ++ s) (scanned_next r f)
Keeps-next none f whole s h g = tt
Keeps-next (some (t, st)) f whole s h g =
    subst (λ w. Keeps w (scanned_before t (f st)))
      (sym (append_assoc t st.held s) ∙ ap (λ w. w ++ s) h.0)
      (Keeps-before t (st.held ++ s) (f st) (g st h.1))

scan-Keeps : (st : Scan) (s : List ℕ) → IsTidy st.held st.missing → Keeps (st.held ++ s) (scan st s)
unfolding scan scan_byte
scan-Keeps st [] h = (sym (append-nil st.held), h)
scan-Keeps st (c ∷ s) h =
    subst (λ w. Keeps w (scan st (c ∷ s))) (append_assoc st.held (c ∷ []) s)
      (Keeps-next (scan_byte st c) (λ next. scan next s) (st.held ++ c ∷ []) s
        (take_byte-Keeps st.held st.missing st.low st.high c h) (λ next. scan-Keeps next s))

pub utf8_prefix-whole : (s t rest : List ℕ) → utf8_prefix s ≡ some (t, rest) → t ++ rest ≡ s
utf8_prefix-whole s t rest h =
    go (scan no_scan s) (scan-Keeps no_scan s refl) (sym (utf8_prefix-text_of s) ∙ h)
  where
    go : (r : Option (List ℕ × Scan)) → Keeps s r → text_of r ≡ some (t, rest) → t ++ rest ≡ s
    go none a e = cc
    go (some (u, st)) a e =
        let (p, q) = text_injective e in
        ap (λ w. w ++ rest) (sym q) ∙ ap (λ w. u ++ w) (sym p) ∙ a.0

-- A line feed is a whole character, so it is not held back.
pub IsPending-line_feed : (s : List ℕ) → IsPending (10 ∷ s) → ⊥
unfolding scan scan_byte take_byte begin_character lead
IsPending-line_feed s h = go (scan no_scan s) (sym (utf8_prefix-text_of (10 ∷ s)) ∙ h)
  where
    go : (r : Option (List ℕ × Scan)) → text_of (scanned_before (10 ∷ []) r) ≡ some ([], 10 ∷ s) → ⊥
    go none e = cc
    go (some (u, st)) e = cc
