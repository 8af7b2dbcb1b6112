-- ===== src/Report/Apport/Printer.antt =====
-- A printer of the format that crates/blankres-report/src/apport.rs reads, and what opens a field.
use blankres.Prelude.{
  ℕ, Bool, true, false, not, none, some, List, [], ◌∷◌, ◌++◌, all, map, ◌≡◌, refl, arith, ◌==◌,
}
use blankres.Report.Apport.{Value, text, binary, Current, push_chunk, open_field}
use blankres.Text.{
  Text, codes, text_eq, is_empty, starts_with, strip_prefix, split_once, trim, trim_start, join,
  is_whitespace,
}
use blankres.Text.Bytes.{Bytes}

-- A field as it is written: a text with its first line, which stands behind the name where it is not empty,
-- and the others; or a binary value with its chunks, and what they mean.
pub data Field : Type 0 where
  text_field : Text → Text → List Text → Field
  binary_field : Text → List Text → Bytes → Field

abbrev pub blank_as_dot : Text → Text
blank_as_dot [] = codes "."
blank_as_dot (c ∷ s) = c ∷ s

abbrev pub field_lines : Field → List Text
field_lines (text_field name first rest) =
    (name ++ b':' ∷ (b' ' ∷ first)) ∷ map (λ w. b' ' ∷ blank_as_dot w) rest
field_lines (binary_field name chunks plain) =
    (name ++ b':' ∷ codes " base64") ∷ map (λ w. b' ' ∷ w) chunks

abbrev pub print_fields : List Field → List Text
print_fields [] = []
print_fields (f ∷ fs) = field_lines f ++ print_fields fs

abbrev pub text_lines : Text → List Text → List Text
text_lines [] rest = rest
text_lines (c ∷ s) rest = (c ∷ s) ∷ rest

abbrev pub field_value : Field → Text × Value
field_value (text_field name first rest) = (name, text (join (codes "\n") (text_lines first rest)))
field_value (binary_field name chunks plain) = (name, binary plain)

-- A name has no colon, and no space around it.
abbrev pub IsName : Text → Type 0
IsName name =
    (all (λ c. not (c == b':')) name ≡ true)
    × (starts_with (codes " ") name ≡ false)
    × (trim name ≡ name)

pub is_empty-middle : (s : Text) (c : ℕ) (o : Text) → is_empty (s ++ c ∷ o) ≡ false
unfolding is_empty
is_empty-middle [] c o = refl
is_empty-middle (d ∷ s) c o = refl

pub strip_space-name :
    (name o : Text)
    → starts_with (codes " ") name ≡ false
    → strip_prefix (codes " ") (name ++ b':' ∷ o) ≡ none
unfolding strip_prefix starts_with
strip_space-name [] o h = refl
strip_space-name (c ∷ name) o h = ground (arith, h)

pub split_once-name :
    (name o : Text)
    → all (λ c. not (c == b':')) name ≡ true
    → split_once b':' (name ++ b':' ∷ o) ≡ some (name, o)
unfolding split_once
split_once-name [] o h = refl
split_once-name (c ∷ name) o h = ground (arith, split_once-name name o)

abbrev pub not_dot : Text → Bool
not_dot w = not (text_eq w (codes "."))

pub push_chunk-text :
    (w : Text) (c : Current)
    → not_dot w ≡ true
    → c.is_binary ≡ false
    → push_chunk (blank_as_dot w) c ≡ record c { chunks = c.chunks ++ w ∷ [] }
unfolding text_eq
push_chunk-text [] c h e = rw e refl
push_chunk-text (d ∷ w) c h e =
    let other : text_eq (d ∷ w) (codes ".") ≡ false = ground (arith, h) in rw (e, other) refl

pub push_chunk-binary :
    (w : Text) (c : Current)
    → c.is_binary ≡ true
    → push_chunk w c ≡ record c { chunks = c.chunks ++ w ∷ [] }
push_chunk-binary w c e = rw e refl

trim_start-space : (s : Text) → trim_start (b' ' ∷ s) ≡ trim_start s
unfolding trim_start is_whitespace
trim_start-space s = refl

pub open_field-text :
    (name first : Text)
    → IsName name
    → trim_start first ≡ first
    → text_eq first (codes "base64") ≡ false
    → open_field name (b' ' ∷ first)
      ≡ record { name = name; chunks = text_lines first []; is_binary = false }
unfolding open_field is_empty
open_field-text name [] h e other = rw (h.2) refl
open_field-text name (c ∷ first) h e other = rw (h.2, trim_start-space (c ∷ first), e, other) refl

pub open_field-binary :
    (name : Text)
    → IsName name
    → open_field name (codes " base64") ≡ record { name = name; chunks = []; is_binary = true }
unfolding open_field
open_field-binary name h = rw (h.2) refl
