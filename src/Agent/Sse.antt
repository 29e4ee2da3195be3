-- ===== src/Agent/Sse.antt =====
-- The parser of server-sent events in provider.rs. Texts are UTF-8 bytes; the text of a UTF-8 error is a
-- function of the bytes.
pub mod Lines
pub mod Pushes
pub mod Chunks
use feather_mesh.Prelude.{
  ℕ, zero, suc, ◌==◌, Bool, true, false, not, Option, none, some, List, [], ◌∷◌, ◌++◌, Text, codes,
  starts_with, is_empty, Result, ok, err, ◌>>=◌, if◌then◌else◌,
}
use feather_mesh.Std.Str.{strip_prefix}
use feather_mesh.Std.Utf8.{utf8_prefix}
use feather_mesh.Agent.Provider.{ProviderError, malformed}

pub record SseParser : Type 0 where
  pub undecoded : List ℕ
  pub line : Text
  pub data_lines : List Text

abbrev pub new_parser : SseParser
new_parser = record { undecoded = []; line = []; data_lines = [] }

-- A parser, and the events that were found on the way to it.
abbrev pub Parsed : Type 0
Parsed = SseParser × List Text

-- `strip_suffix(c)`
abbrev pub cons_text : ℕ → Option Text → Option Text
cons_text x none = none
cons_text x (some t) = some (x ∷ t)

unfoldable pub strip_last : ℕ → Text → Option Text
strip_last c [] = none
strip_last c (x ∷ []) = if x == c then some [] else none
strip_last c (x ∷ y ∷ s) = cons_text x (strip_last c (y ∷ s))

abbrev pub or_self : Option Text → Text → Text
or_self none s = s
or_self (some t) s = t

-- `split_inclusive('\n')`
unfoldable pub cons_line : ℕ → List Text → List Text
cons_line c [] = (c ∷ []) ∷ []
cons_line c (p ∷ ps) = (c ∷ p) ∷ ps

unfoldable pub split_lines : Text → List Text
unfolding cons_line
split_lines [] = []
split_lines (c ∷ s) =
    let rest = split_lines s in if c == 10 then (c ∷ []) ∷ rest else cons_line c rest

-- `join("\n")`
abbrev pub join_lines : List Text → Text
join_lines [] = []
join_lines (l ∷ []) = l
join_lines (l ∷ m ∷ ls) = l ++ 10 ∷ join_lines (m ∷ ls)

-- What a `data:` field adds.
abbrev pub add_data : SseParser → Option Text → SseParser
add_data p none = p
add_data p (some d) = record p {
  data_lines = p.data_lines ++ or_self (strip_prefix (codes " ") d) d ∷ [];
}

unfoldable pub process_line : SseParser → Text → Parsed
unfolding strip_prefix starts_with
process_line p line =
    if is_empty line
    then if is_empty p.data_lines
      then (p, [])
      else (record p { data_lines = [] }, join_lines p.data_lines ∷ [])
    else if starts_with (codes ":") line
    then (p, [])
    else (add_data p (strip_prefix (codes "data:") line), [])

-- One part of `split_inclusive`, with a line feed or without one.
unfoldable pub push_line : SseParser → Text → Option Text → Parsed
unfolding strip_last process_line
push_line p part none = (record p { line = p.line ++ part }, [])
push_line p part (some line) =
    process_line (record p { line = [] }) (p.line ++ or_self (strip_last 13 line) line)

unfoldable pub push_part : SseParser → Text → Parsed
unfolding push_line strip_last
push_part p part = push_line p part (strip_last 10 part)

abbrev pub emitted_before : List Text → Parsed → Parsed
emitted_before es r = (r.0, es ++ r.1)

unfoldable pub push_parts : SseParser → List Text → Parsed
unfolding push_part
push_parts p [] = (p, [])
push_parts p (part ∷ parts) = let r = push_part p part in emitted_before r.1 (push_parts r.0 parts)

unfoldable pub push_text : SseParser → Text → Parsed
unfolding push_parts split_lines
push_text p text = push_parts p (split_lines text)

unfoldable pub push : (List ℕ → Text) → SseParser → List ℕ → Result ProviderError Parsed
unfolding utf8_prefix push_text
push describe p bytes = elim (utf8_prefix (p.undecoded ++ bytes)) [
  | none ↦ err (malformed (describe (p.undecoded ++ bytes)))
  | some (text, rest) ↦ ok (push_text (record p { undecoded = rest }) text)
]

-- An unfinished line is a line too.
unfoldable pub finish : SseParser → Result ProviderError Parsed
unfolding process_line
finish p =
    if not (is_empty p.undecoded)
    then err (malformed (codes "truncated UTF-8 in SSE stream"))
    else if not (is_empty p.line)
    then ok (process_line (record p { line = [] }) p.line)
    else ok (p, [])

-- The chunks of a response one after the other.
unfoldable pub push_chunks :
    (List ℕ → Text) → SseParser → List (List ℕ) → Result ProviderError Parsed
unfolding push
push_chunks describe p [] = ok (p, [])
push_chunks describe p (c ∷ cs) = do
  r ← push describe p c
  rest ← push_chunks describe r.0 cs
  ok (emitted_before r.1 rest)
