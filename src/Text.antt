-- ===== src/Text.antt =====
-- The operations of Rust's `str` that the program uses. A text is the list of its characters, as
-- code points; `utf8` and `byte_len` are its encoding, which is what `len()`, slices and the
-- hashers see.
pub mod Numbers
pub mod Bytes
pub mod Equality
pub mod Utf8
pub mod Split
pub mod Trim
use Prim.Native.Char.{code}
use blankres.Prelude.{
  ℕ, ◌+◌, String, Bool, true, false, not, ◌&&◌, ◌||◌, Option, none, some, List, [], ◌∷◌, ◌++◌, map,
  reverse, filter, leb, ltb, ◌==◌, if◌then◌else◌,
}

abbrev pub Text : Type 0
Text = List ℕ

-- A literal of the source.
abbrev pub codes : String → Text
codes String.[] = []
codes (String.◌∷◌ c s) = code c ∷ codes s

unfoldable pub text_eq : Text → Text → Bool
text_eq [] [] = true
text_eq (a ∷ s) (b ∷ t) = a == b && text_eq s t
text_eq _ _ = false

-- The order of `str`, which is that of the bytes and so that of the code points.
unfoldable pub text_le : Text → Text → Bool
text_le [] t = true
text_le (a ∷ s) [] = false
text_le (a ∷ s) (b ∷ t) = ltb a b || (a == b && text_le s t)

unfoldable pub is_empty : Text → Bool
is_empty [] = true
is_empty (c ∷ s) = false

unfoldable pub strip_prefix : Text → Text → Option Text
strip_prefix [] s = some s
strip_prefix (p ∷ ps) [] = none
strip_prefix (p ∷ ps) (c ∷ s) = if p == c then strip_prefix ps s else none

unfoldable pub starts_with : Text → Text → Bool
starts_with [] s = true
starts_with (p ∷ ps) [] = false
starts_with (p ∷ ps) (c ∷ s) = p == c && starts_with ps s

-- `s.contains(p)`, the pattern first.
unfoldable pub contains : Text → Text → Bool
unfolding starts_with
contains p [] = starts_with p []
contains p (c ∷ s) = starts_with p (c ∷ s) || contains p s

-- What stands before and behind the first character `sep`.
abbrev pub cons_before : ℕ → Option (Text × Text) → Option (Text × Text)
cons_before c none = none
cons_before c (some (a, b)) = some (c ∷ a, b)

unfoldable pub split_once : ℕ → Text → Option (Text × Text)
split_once sep [] = none
split_once sep (c ∷ s) = if c == sep then some ([], s) else cons_before c (split_once sep s)

-- `s.split(p)` for a set of characters: always at least one piece.
abbrev pub cons_piece : ℕ → List Text → List Text
cons_piece c [] = (c ∷ []) ∷ []
cons_piece c (w ∷ ws) = (c ∷ w) ∷ ws

unfoldable pub split : (ℕ → Bool) → Text → List Text
split p [] = [] ∷ []
split p (c ∷ s) = let rest = split p s in if p c then [] ∷ rest else cons_piece c rest

-- `char::to_ascii_lowercase`.
unfoldable pub lower_char : ℕ → ℕ
lower_char c = if leb b'A' c && leb c b'Z' then c + 32 else c

unfoldable pub to_lower : Text → Text
unfolding lower_char
to_lower = map lower_char

-- The Unicode property White_Space, as `char::is_whitespace` has it.
unfoldable pub is_whitespace : ℕ → Bool
is_whitespace c =
    (leb 9 c && leb c 13)
    || c == 32
    || c == 0x85
    || c == 0xa0
    || c == 0x1680
    || (leb 0x2000 c && leb c 0x200a)
    || c == 0x2028
    || c == 0x2029
    || c == 0x202f
    || c == 0x205f
    || c == 0x3000

unfoldable pub drop_while : (ℕ → Bool) → Text → Text
drop_while p [] = []
drop_while p (c ∷ s) = let rest = drop_while p s in if p c then rest else c ∷ s

unfoldable pub trim_start : Text → Text
unfolding drop_while is_whitespace
trim_start = drop_while is_whitespace

-- `trim_end_matches(p)` for a set of characters.
unfoldable pub drop_while_end : (ℕ → Bool) → Text → Text
unfolding drop_while
drop_while_end p s = reverse (drop_while p (reverse s))

unfoldable pub trim : Text → Text
unfolding trim_start drop_while_end is_whitespace
trim s = drop_while_end is_whitespace (trim_start s)

unfoldable pub split_whitespace : Text → List Text
unfolding split is_whitespace is_empty
split_whitespace s = filter (λ w. not (is_empty w)) (split is_whitespace s)

-- `str::lines`: pieces ended by `\n`, a `\r` before it dropped, no piece behind the last `\n`.
abbrev strip_cr : Text → Text
strip_cr [] = []
strip_cr (c ∷ []) = if c == 13 then [] else c ∷ []
strip_cr (c ∷ d ∷ s) = c ∷ strip_cr (d ∷ s)

abbrev lines_of : List Text → List Text
lines_of [] = []
lines_of (w ∷ []) = elim w [ [] ↦ [] | c ∷ s ↦ (c ∷ s) ∷ [] ]
lines_of (w ∷ v ∷ ws) = strip_cr w ∷ lines_of (v ∷ ws)

unfoldable pub lines : Text → List Text
unfolding split
lines s = lines_of (split (λ c. c == 10) s)

-- `slice.join(sep)`.
unfoldable pub join : Text → List Text → Text
join sep [] = []
join sep (w ∷ []) = w
join sep (w ∷ v ∷ ws) = w ++ (sep ++ join sep (v ∷ ws))

-- `format!` of several pieces, and `concat`.
unfoldable pub concat : List Text → Text
concat [] = []
concat (w ∷ ws) = w ++ concat ws

-- `s.split_once(p)` for a text `p`: what stands behind its first occurrence.
unfoldable pub after_first : Text → Text → Option Text
unfolding strip_prefix
after_first p [] = strip_prefix p []
after_first p (c ∷ s) =
    let rest = after_first p s in elim (strip_prefix p (c ∷ s)) [ none ↦ rest | some t ↦ some t ]

-- `s.rsplit_once(c)`, its second half.
unfoldable pub after_last : ℕ → Text → Option Text
after_last sep [] = none
after_last sep (c ∷ s) = elim (after_last sep s) [
  | none ↦ if c == sep then some s else none
  | some t ↦ some t
]
