-- ===== src/Std/Utf8.antt =====
-- UTF-8 texts as their bytes: `String::from_utf8`, and the boundaries at which `str` may be sliced.
pub mod Prefix
use feather_mesh.Prelude.{
  ℕ, zero, suc, Bool, true, false, ◌&&◌, Option, none, some, List, [], ◌∷◌, ◌++◌, leb, ltb, ◌==◌,
  if◌then◌else◌,
}

-- After a first byte: how many bytes follow, and the bounds of the next one.
unfoldable pub lead : ℕ → Option (ℕ × ℕ × ℕ)
lead c =
    if ltb c 0x80
    then some (0, 0, 0)
    else if leb 0xc2 c && leb c 0xdf
    then some (1, 0x80, 0xbf)
    else if c == 0xe0
    then some (2, 0xa0, 0xbf)
    else if c == 0xed
    then some (2, 0x80, 0x9f)
    else if leb 0xe1 c && leb c 0xef
    then some (2, 0x80, 0xbf)
    else if c == 0xf0
    then some (3, 0x90, 0xbf)
    else if leb 0xf1 c && leb c 0xf3
    then some (3, 0x80, 0xbf)
    else if c == 0xf4
    then some (3, 0x80, 0x8f)
    else none

-- `n` bytes of a character are missing, the next one between `lo` and `hi`.
unfoldable pub utf8_from : ℕ → ℕ → ℕ → List ℕ → Bool
unfolding lead
utf8_from zero lo hi [] = true
utf8_from (suc n) lo hi [] = false
utf8_from (suc n) lo hi (c ∷ s) = leb lo c && leb c hi && utf8_from n 0x80 0xbf s
utf8_from zero lo hi (c ∷ s) = elim (lead c) [ none ↦ false | some (n, l, h) ↦ utf8_from n l h s ]

unfoldable pub is_utf8 : List ℕ → Bool
unfolding utf8_from
is_utf8 s = utf8_from 0 0 0 s

-- A byte that continues a character: a slice may not start at it.
unfoldable pub is_continuation : ℕ → Bool
is_continuation c = leb 0x80 c && leb c 0xbf

-- `str::is_char_boundary` at the start of what is left.
unfoldable pub at_boundary : List ℕ → Bool
unfolding is_continuation
at_boundary [] = true
at_boundary (c ∷ s) = if is_continuation c then false else true

-- `str::from_utf8`, byte by byte: the bytes of the character that has begun, how many more it needs, and
-- the bounds of the next one.
pub record Scan : Type 0 where
  pub held : List ℕ
  pub missing : ℕ
  pub low : ℕ
  pub high : ℕ

abbrev pub no_scan : Scan
no_scan = record { held = []; missing = 0; low = 0; high = 0 }

-- The character that a byte completes, if it does, and the state after it; `none` when the bytes are
-- malformed, whatever follows them.
unfoldable pub continue_character : List ℕ → ℕ → List ℕ × Scan
continue_character held zero = (held, no_scan)
continue_character held (suc n) =
    ([], record { held = held; missing = suc n; low = 0x80; high = 0xbf })

unfoldable pub begin_character : ℕ → Option (ℕ × ℕ × ℕ) → Option (List ℕ × Scan)
begin_character c none = none
begin_character c (some (zero, l, h)) = some (c ∷ [], no_scan)
begin_character c (some (suc n, l, h)) =
    some ([], record { held = c ∷ []; missing = suc n; low = l; high = h })

unfoldable pub take_byte : List ℕ → ℕ → ℕ → ℕ → ℕ → Option (List ℕ × Scan)
unfolding continue_character begin_character lead
take_byte held zero low high c = begin_character c (lead c)
take_byte held (suc n) low high c =
    if leb low c && leb c high then some (continue_character (held ++ c ∷ []) n) else none

unfoldable pub scan_byte : Scan → ℕ → Option (List ℕ × Scan)
unfolding take_byte
scan_byte st c = take_byte st.held st.missing st.low st.high c

abbrev pub scanned_before : List ℕ → Option (List ℕ × Scan) → Option (List ℕ × Scan)
scanned_before s none = none
scanned_before s (some (t, st)) = some (s ++ t, st)

abbrev pub scanned_next :
    Option (List ℕ × Scan) → (Scan → Option (List ℕ × Scan)) → Option (List ℕ × Scan)
scanned_next none rest = none
scanned_next (some (t, st)) rest = scanned_before t (rest st)

unfoldable pub scan : Scan → List ℕ → Option (List ℕ × Scan)
unfolding scan_byte
scan st [] = some ([], st)
scan st (c ∷ s) = scanned_next (scan_byte st c) (λ next. scan next s)

-- The longest valid text at the start, and the incomplete character that is left.
unfoldable pub utf8_prefix : List ℕ → Option (List ℕ × List ℕ)
unfolding scan
utf8_prefix s = elim (scan no_scan s) [ none ↦ none | some (t, st) ↦ some (t, st.held) ]
