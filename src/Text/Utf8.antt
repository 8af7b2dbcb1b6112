-- ===== src/Text/Utf8.antt =====
-- UTF-8 is a prefix code: what encodes a text free of NUL, before a NUL, determines the text.
use blankres.Prelude.{ℕ, ◌<◌, [], ◌∷◌, ◌++◌, ◌≡◌, ◌≢◌, refl, arith, append_assoc, sym}
use blankres.Text.{Text}
use mathlib.Core.Path.{ap₂}
use blankres.Text.Bytes.{Bytes, utf8_char, utf8}

-- A character other than NUL.
abbrev pub IsChar : ℕ → Type 0
IsChar c = (0 < c) × (c < 0x110000)

abbrev pub IsNulFree : Text → Type 0
IsNulFree [] = Unit
IsNulFree (c ∷ s) = IsChar c × IsNulFree s

utf8_char_injective :
    (c d : ℕ) (x y : Bytes)
    → IsChar c
    → IsChar d
    → utf8_char c ++ x ≡ utf8_char d ++ y
    → (c ≡ d) × (x ≡ y)
unfolding utf8_char
utf8_char_injective c d x y hc hd e = ground arith

utf8_char_pos : (c : ℕ) (x y : Bytes) → IsChar c → utf8_char c ++ x ≢ 0 ∷ y
unfolding utf8_char
utf8_char_pos c x y h e = ground arith

pub utf8_injective :
    (s t : Text) (x y : Bytes)
    → IsNulFree s
    → IsNulFree t
    → utf8 s ++ 0 ∷ x ≡ utf8 t ++ 0 ∷ y
    → (s ≡ t) × (x ≡ y)
unfolding utf8
utf8_injective [] [] x y hs ht e = (refl, ground arith)
utf8_injective [] (d ∷ t) x y hs ht e =
    absurd (utf8_char_pos d (utf8 t ++ 0 ∷ y) x ht.0 (sym (rw append_assoc at e)))
utf8_injective (c ∷ s) [] x y hs ht e =
    absurd (utf8_char_pos c (utf8 s ++ 0 ∷ x) y hs.0 (rw append_assoc at e))
utf8_injective (c ∷ s) (d ∷ t) x y hs ht e =
    let (same, rest) =
      utf8_char_injective c d (utf8 s ++ 0 ∷ x) (utf8 t ++ 0 ∷ y) hs.0 ht.0
        (simp append_assoc at e) in
    let (tail, behind) = utf8_injective s t x y hs.1 ht.1 rest in (ap₂ ◌∷◌ same tail, behind)
