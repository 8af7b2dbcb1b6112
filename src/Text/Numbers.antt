-- ===== src/Text/Numbers.antt =====
-- Numbers in text: `{}` and `{:#x}` of an unsigned integer, `parse` and `from_str_radix`.
use blankres.Prelude.{
  ℕ, zero, suc, ◌+◌, ◌-◌, ◌*◌, ◌/◌, ◌%◌, ◌^◌, ◌&&◌, Option, none, some, [], ◌∷◌, leb, ltb, ◌==◌,
  if◌then◌else◌,
}
use blankres.Text.{Text}

-- `char::to_digit`, without the test against the radix.
unfoldable pub digit_value : ℕ → Option ℕ
digit_value c =
    if leb b'0' c && leb c b'9'
    then some (c - b'0')
    else if leb b'a' c && leb c b'z'
    then some (c - b'a' + 10)
    else if leb b'A' c && leb c b'Z'
    then some (c - b'A' + 10)
    else none

-- The next value, `none` at what is no digit or at an overflow past `bound`.
unfoldable pub push_digit : ℕ → ℕ → ℕ → Option ℕ → Option ℕ
push_digit base bound n none = none
push_digit base bound n (some d) =
    if ltb d base && ltb (n * base + d) bound then some (n * base + d) else none

unfoldable pub parse_digits : ℕ → ℕ → ℕ → Text → Option ℕ
unfolding digit_value push_digit
parse_digits base bound n [] = some n
parse_digits base bound n (c ∷ s) = elim (push_digit base bound n (digit_value c)) [
  | none ↦ none
  | some m ↦ parse_digits base bound m s
]

-- `from_str_radix` of an unsigned type below `bound`: one `+` may stand in front.
unfoldable pub parse_uint : ℕ → ℕ → Text → Option ℕ
unfolding parse_digits
parse_uint base bound [] = none
parse_uint base bound (c ∷ []) = parse_digits base bound 0 (c ∷ [])
parse_uint base bound (c ∷ d ∷ s) =
    if c == b'+' then parse_digits base bound 0 (d ∷ s) else parse_digits base bound 0 (c ∷ d ∷ s)

unfoldable pub parse_u32 : Text → Option ℕ
unfolding parse_uint
parse_u32 = parse_uint 10 (2 ^ 32)

unfoldable pub parse_u64_hex : Text → Option ℕ
unfolding parse_uint
parse_u64_hex = parse_uint 16 (2 ^ 64)

unfoldable pub digit_char : ℕ → ℕ
digit_char d = if ltb d 10 then b'0' + d else b'a' + (d - 10)

-- The digits of `n` in front of `acc`. A `u64` has at most 20 decimal and 16 hexadecimal digits.
unfoldable pub digits_onto : ℕ → ℕ → ℕ → Text → Text
unfolding digit_char
digits_onto zero base n acc = acc
digits_onto (suc f) base n acc =
    let rest = digits_onto f base (n / base) (digit_char (n % base) ∷ acc) in
    if ltb n base then digit_char n ∷ acc else rest

unfoldable pub to_decimal : ℕ → Text
unfolding digits_onto
to_decimal n = digits_onto 20 10 n []

-- `{:#x}`
unfoldable pub to_hex : ℕ → Text
unfolding digits_onto
to_hex n = b'0' ∷ b'x' ∷ digits_onto 16 16 n []
