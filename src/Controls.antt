-- ===== src/Controls.antt =====
-- `split_command` and `shell_quote` of the terminal's controls.rs.
pub mod Quoting
use feather_mesh.Prelude.{
  ℕ, Bool, true, false, ◌&&◌, Option, none, some, List, [], ◌∷◌, ◌++◌, Text, Result, ok, err, ◌==◌,
  if◌then◌else◌, not,
}
use feather_mesh.Std.Char.{is_whitespace}

-- The variables of the loop over the characters.
pub record Lexer : Type 0 where
  pub words : List Text
  pub word : Text
  pub quote : Option ℕ
  pub escape : Bool
  pub started : Bool

-- `quote == Some(c)`
abbrev pub is_quote : Option ℕ → ℕ → Bool
is_quote none c = false
is_quote (some q) c = c == q

abbrev pub push : ℕ → Lexer → Lexer
push c l = record l { word = l.word ++ c ∷ []; started = true }

abbrev pub finish_word : Lexer → Lexer
finish_word l =
    if l.started then record l { words = l.words ++ l.word ∷ []; word = []; started = false } else l

-- A character that is neither escaped nor an escape.
unfoldable pub lex_plain : ℕ → Option ℕ → Lexer → Lexer
unfolding is_whitespace
lex_plain c (some q) l = if c == q then record l { quote = none; started = true } else push c l
lex_plain c none l =
    if c == b'\''
    then record l { quote = some c; started = true }
    else if c == b'"'
    then record l { quote = some c; started = true }
    else if is_whitespace c
    then finish_word l
    else push c l

unfoldable pub lex : ℕ → Lexer → Lexer
unfolding lex_plain
lex c l =
    if l.escape
    then record (push c l) { escape = false }
    else if c == b'\\' && not (is_quote l.quote b'\'')
    then record l { escape = true; started = true }
    else lex_plain c l.quote l

unfoldable pub lex_all : Text → Lexer → Lexer
unfolding lex
lex_all [] l = l
lex_all (c ∷ s) l = lex_all s (lex c l)

pub data CommandError : Type 0 where
  unterminated : CommandError

abbrev pub start : Lexer
start = record { words = []; word = []; quote = none; escape = false; started = false }

unfoldable pub finish : Lexer → Result CommandError (List Text)
finish l = elim l.quote [
  | some q ↦ err unterminated
  | none ↦ if l.escape then err unterminated else ok (finish_word l).words
]

unfoldable pub split_command : Text → Result CommandError (List Text)
unfolding lex_all finish
split_command input = finish (lex_all input start)

-- `value.replace('\'', "'\\''")`
unfoldable pub escape_quotes : Text → Text
escape_quotes [] = []
escape_quotes (c ∷ s) =
    let rest = escape_quotes s in
    if c == b'\'' then b'\'' ∷ b'\\' ∷ b'\'' ∷ b'\'' ∷ rest else c ∷ rest

unfoldable pub shell_quote : Text → Text
unfolding escape_quotes
shell_quote value = b'\'' ∷ escape_quotes value ++ b'\'' ∷ []
