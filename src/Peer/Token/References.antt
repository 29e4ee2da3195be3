-- ===== src/Peer/Token/References.antt =====
-- Which tokens are accepted, and the round trip between references and their parts.
use feather_mesh.Prelude.{
  ℕ, String, ◌≡◌, refl, ◌↔◌, ◌⊎◌, true, false, [], ◌∷◌, ◌++◌, arith, ◌==◌, ◌≤◌, Text, is_empty, All,
  all-All, All-all, ok, Option-cases, inl, inr, >>-eq-ok, guard-eq-ok,
}
use feather_mesh.Std.Char.{is_whitespace, is_ascii_alphanumeric, is_ascii_digit}
use feather_mesh.Std.Str.{strip_prefix, split_once, contains_char, is_blank}
use feather_mesh.Std.Str.Laws.{
  strip_prefix-append, strip_prefix-some, split_once-append, split_once-some, is_blank-cons,
}
use feather_mesh.Peer.Error.{validation}
use feather_mesh.Peer.Token.{
  non_blank, is_token_char, validate_token, validate_namespace, validate_product_id, scheme,
  reference, parse_reference,
}

-- The codes of ASCII digits, letters, `-`, `.` and `_`.
abbrev pub IsTokenChar : ℕ → Type 0
IsTokenChar c =
    ((48 ≤ c) × (c ≤ 57))
    ⊎ (((65 ≤ c) × (c ≤ 90)) ⊎ (((97 ≤ c) × (c ≤ 122)) ⊎ ((c ≡ 45) ⊎ ((c ≡ 46) ⊎ (c ≡ 95)))))

-- At least one character, and only these.
pub record IsToken (s : Text) : Type 0 where
  pub present : is_empty s ≡ false
  pub chars : All IsTokenChar s

is_token_char-accepted : (c : ℕ) → IsTokenChar c → is_token_char c ≡ true
unfolding is_token_char is_ascii_alphanumeric is_ascii_digit
is_token_char-accepted c h = ground (arith, h)

is_token_char-IsTokenChar : (c : ℕ) → is_token_char c ≡ true → IsTokenChar c
unfolding is_token_char is_ascii_alphanumeric is_ascii_digit
is_token_char-IsTokenChar c h = ground (arith, h)

are_token_chars : (s : Text) → All IsTokenChar s → All (λ c. is_token_char c ≡ true) s
are_token_chars [] h = tt
are_token_chars (c ∷ s) h = (is_token_char-accepted c h.0, are_token_chars s h.1)

All-IsTokenChar : (s : Text) → All (λ c. is_token_char c ≡ true) s → All IsTokenChar s
All-IsTokenChar [] h = tt
All-IsTokenChar (c ∷ s) h = (is_token_char-IsTokenChar c h.0, All-IsTokenChar s h.1)

token_char_range : (c : ℕ) → is_token_char c ≡ true → (45 ≤ c) × (c ≤ 122) × ((c == b'/') ≡ false)
unfolding is_token_char
token_char_range c h = ground arith

whitespace_range : (c : ℕ) → 45 ≤ c → c ≤ 122 → is_whitespace c ≡ false
unfolding is_whitespace
whitespace_range c h k = ground arith

token-not-blank : (s : Text) → IsToken s → is_blank s ≡ false
token-not-blank [] t = cc t.present
token-not-blank (c ∷ s) t =
    let (lo, hi, _) = token_char_range c (is_token_char-accepted c t.chars.0) in
    is_blank-cons c s (whitespace_range c lo hi)

token-no-slash : (s : Text) → All (λ c. is_token_char c ≡ true) s → contains_char b'/' s ≡ false
token-no-slash [] t = refl
token-no-slash (c ∷ s) t = ground (arith, token_char_range c, token-no-slash s t.1)

pub IsToken-accepted : (field : String) (s : Text) → IsToken s → validate_token field s ≡ ok tt
unfolding validate_token
IsToken-accepted field s t =
    rw (token-not-blank s t, All-all is_token_char s (are_token_chars s t.chars))

pub accepted-IsToken : (field : String) (s : Text) → validate_token field s ≡ ok tt → IsToken s
unfolding validate_token
accepted-IsToken field [] h = cc
accepted-IsToken field (c ∷ s) h =
    let (_, k) = >>-eq-ok (non_blank field (c ∷ s)) _ tt h in
    record {
      present = refl;
      chars =
          All-IsTokenChar (c ∷ s)
            (all-All is_token_char (c ∷ s) (guard-eq-ok _ (validation field) k));
    }

-- Exactly the tokens are accepted: nonempty texts of ASCII letters, digits, `-`, `_` and `.`.
pub validate_token_iff : (field : String) (s : Text) → (validate_token field s ≡ ok tt) ↔ IsToken s
validate_token_iff field s = (accepted-IsToken field s, IsToken-accepted field s)

-- A reference that is made of two tokens is parsed back into them.
pub parse_reference-reference :
    (namespace product_id : Text)
    → IsToken namespace
    → IsToken product_id
    → parse_reference (reference namespace product_id) ≡ ok (namespace, product_id)
unfolding parse_reference reference validate_namespace validate_product_id
parse_reference-reference namespace product_id n p = rw (
  strip_prefix-append scheme (namespace ++ b'/' ∷ product_id),
  split_once-append b'/' namespace product_id
      (token-no-slash namespace (are_token_chars namespace n.chars)),
  token-no-slash product_id (are_token_chars product_id p.chars),
  IsToken-accepted "namespace" namespace n,
  IsToken-accepted "product_id" product_id p,
)

-- What is parsed is the reference that its two parts make, and both parts are tokens.
pub parse_reference_sound :
    (value namespace product_id : Text)
    → parse_reference value ≡ ok (namespace, product_id)
    → (value ≡ reference namespace product_id) × IsToken namespace × IsToken product_id
unfolding parse_reference reference validate_namespace validate_product_id
parse_reference_sound value namespace product_id h =
    elim (Option-cases (strip_prefix scheme value)) [
      | inl n ↦ cc (rw n at h)
      | inr (w, e) ↦ elim (Option-cases (split_once b'/' w)) [
        | inl n ↦ cc (rw (e, n) at h)
        | inr (ab, f) ↦
            let k = rw (e, f) at h in
            ground (
              arith,
              strip_prefix-some scheme value w e,
              split_once-some b'/' w ab.0 ab.1 f,
              accepted-IsToken "namespace" ab.0,
              accepted-IsToken "product_id" ab.1,
            )
      ]
    ]
