-- ===== src/Text/Bytes.antt =====
-- UTF-8: what `as_bytes()`, `len()` and byte slices of a text see.
use blankres.Prelude.{
  ℕ, ◌+◌, ◌-◌, ◌/◌, ◌%◌, Option, none, some, List, [], ◌∷◌, ◌++◌, ltb, leb, ◌==◌, if◌then◌else◌,
}
use blankres.Text.{Text}

abbrev pub Bytes : Type 0
Bytes = List ℕ

unfoldable pub utf8_char : ℕ → Bytes
utf8_char c =
    if ltb c 0x80
    then c ∷ []
    else if ltb c 0x800
    then (0xc0 + c / 64) ∷ (0x80 + c % 64) ∷ []
    else if ltb c 0x10000
    then (0xe0 + c / 4096) ∷ (0x80 + (c / 64) % 64) ∷ (0x80 + c % 64) ∷ []
    else (0xf0 + c / 262144)
      ∷ (0x80 + (c / 4096) % 64)
      ∷ (0x80 + (c / 64) % 64)
      ∷ (0x80 + c % 64)
      ∷ []

unfoldable pub utf8 : Text → Bytes
unfolding utf8_char
utf8 [] = []
utf8 (c ∷ s) = utf8_char c ++ utf8 s

-- `c.len_utf8()`
unfoldable pub char_len : ℕ → ℕ
char_len c = if ltb c 0x80 then 1 else if ltb c 0x800 then 2 else if ltb c 0x10000 then 3 else 4

-- `s.len()`
unfoldable pub byte_len : Text → ℕ
unfolding char_len
byte_len [] = 0
byte_len (c ∷ s) = char_len c + byte_len s

-- `&s[..n]`; `none` is the panic of a cut inside a character or past the end.
abbrev pub cons_cut : ℕ → Option Text → Option Text
cons_cut c none = none
cons_cut c (some s) = some (c ∷ s)

unfoldable pub slice_to : ℕ → Text → Option Text
unfolding char_len
slice_to n [] = if n == 0 then some [] else none
slice_to n (c ∷ s) =
    let rest = cons_cut c (slice_to (n - char_len c) s) in
    if n == 0 then some [] else if leb (char_len c) n then rest else none

-- `&s[n..]`
unfoldable pub slice_from : ℕ → Text → Option Text
unfolding char_len
slice_from n [] = if n == 0 then some [] else none
slice_from n (c ∷ s) =
    let rest = slice_from (n - char_len c) s in
    if n == 0 then some (c ∷ s) else if leb (char_len c) n then rest else none
