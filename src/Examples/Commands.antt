-- ===== src/Examples/Commands.antt =====
-- A command of two words, one with a quote in it, in the terminal.
use feather_mesh.Prelude.{◌≡◌, [], ◌∷◌, codes, ok, Text, List}
use feather_mesh.Controls.{split_command}
use feather_mesh.Controls.Quoting.{quoted_command, split_command-shell_quote}

abbrev words : List Text
words = codes "stage" ∷ codes "it's here" ∷ []

split_command-shell_quote_example : split_command (quoted_command words) ≡ ok words
split_command-shell_quote_example = split_command-shell_quote words
