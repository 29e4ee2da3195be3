-- ===== src/Controls/Quoting.antt =====
-- `split_command` on the words that `shell_quote` writes.
use feather_mesh.Prelude.{
  ℕ, ◌≡◌, refl, sym, ap, ◌∙◌, Bool, true, false, none, some, List, [], ◌∷◌, ◌++◌, arith, Text, ok,
  append_assoc, append-nil, Bool-cases, inl, inr, ◌==◌,
}
use feather_mesh.Controls.{
  Lexer, lex, lex_plain, lex_all, finish, split_command, escape_quotes, shell_quote,
}

-- The words, each quoted, with a space between two of them.
abbrev pub quoted_command : List Text → Text
quoted_command [] = []
quoted_command (w ∷ []) = shell_quote w
quoted_command (w ∷ v ∷ rest) = shell_quote w ++ b' ' ∷ quoted_command (v ∷ rest)

abbrev outside : List Text → Text → Bool → Lexer
outside words word started = record {
  words = words;
  word = word;
  quote = none;
  escape = false;
  started = started;
}

abbrev inside : List Text → Text → Lexer
inside words word = record {
  words = words;
  word = word;
  quote = some b'\'';
  escape = false;
  started = true;
}

lex_all-append : (s t : Text) (l : Lexer) → lex_all (s ++ t) l ≡ lex_all t (lex_all s l)
unfolding lex_all
lex_all-append [] t l = refl
lex_all-append (c ∷ s) t l = lex_all-append s t (lex c l)

lex-inside :
    (c : ℕ) (words : List Text) (word : Text)
    → (c == b'\'') ≡ false
    → lex c (inside words word) ≡ inside words (word ++ c ∷ [])
unfolding lex lex_plain
lex-inside c words word h = elim (Bool-cases (c == b'\\')) [
  | inl e ↦ rw (e, h) refl
  | inr n ↦ rw (n, h) refl
]

lex_all-quote :
    (s : Text) (words : List Text) (word : Text)
    → lex_all (b'\'' ∷ b'\\' ∷ b'\'' ∷ b'\'' ∷ s) (inside words word)
      ≡ lex_all s (inside words (word ++ b'\'' ∷ []))
unfolding lex_all lex lex_plain
lex_all-quote s words word = refl

lex_all-escape_quotes :
    (s : Text) (words : List Text) (word : Text)
    → lex_all (escape_quotes s) (inside words word) ≡ inside words (word ++ s)
unfolding escape_quotes lex_all
lex_all-escape_quotes [] words word = ap (inside words) (sym (append-nil word))
lex_all-escape_quotes (c ∷ s) words word = elim (Bool-cases (c == b'\'')) [
  | inl e ↦
      let is_quote : b'\'' ≡ c = ground arith in
      rw e (
        lex_all-quote (escape_quotes s) words word
        ∙ lex_all-escape_quotes s words (word ++ b'\'' ∷ [])
        ∙ ap (inside words) (append_assoc word (b'\'' ∷ []) s)
        ∙ ap (λ d. inside words (word ++ d ∷ s)) is_quote)
  | inr n ↦ rw n (
      ap (lex_all (escape_quotes s)) (lex-inside c words word n)
      ∙ lex_all-escape_quotes s words (word ++ c ∷ [])
      ∙ ap (inside words) (append_assoc word (c ∷ []) s))
]

lex_all-shell_quote :
    (s : Text) (words : List Text)
    → lex_all (shell_quote s) (outside words [] false) ≡ outside words s true
unfolding shell_quote lex_all lex lex_plain
lex_all-shell_quote s words =
    lex_all-append (escape_quotes s) (b'\'' ∷ []) (inside words [])
    ∙ ap (lex_all (b'\'' ∷ [])) (lex_all-escape_quotes s words [])

finish-quoted_command :
    (words done : List Text)
    → finish (lex_all (quoted_command words) (outside done [] false)) ≡ ok (done ++ words)
unfolding finish lex_all lex lex_plain
finish-quoted_command [] done = ap ok (sym (append-nil done))
finish-quoted_command (w ∷ []) done = ap finish (lex_all-shell_quote w done)
finish-quoted_command (w ∷ v ∷ rest) done =
    ap finish (
      lex_all-append (shell_quote w) (b' ' ∷ quoted_command (v ∷ rest)) (outside done [] false)
      ∙ ap (lex_all (b' ' ∷ quoted_command (v ∷ rest))) (lex_all-shell_quote w done))
    ∙ finish-quoted_command (v ∷ rest) (done ++ w ∷ [])
    ∙ ap ok (append_assoc done (w ∷ []) (v ∷ rest))

-- Words that are quoted one by one and written with a space between them are split into the same words.
pub split_command-shell_quote :
    (words : List Text) → split_command (quoted_command words) ≡ ok words
unfolding split_command
split_command-shell_quote words = finish-quoted_command words []
