-- ===== src/Report/Apport.antt =====
-- crates/blankres-report/src/apport.rs: the reader of apport's `.crash` files. Base64 and zlib are
-- parameters, with the texts of their errors.
pub mod Printer
pub mod RoundTrip
use blankres.Prelude.{
  ℕ, ◌+◌, Bool, true, false, not, ◌&&◌, Option, none, some, List, [], ◌∷◌, ◌++◌, if◌then◌else◌,
}
use blankres.Text.{
  Text, codes, text_eq, is_empty, strip_prefix, split_once, trim, trim_start, lines, join,
}
use blankres.Text.Bytes.{Bytes}
use blankres.TextMap.{TextMap, insert}

pub data ApportError : Type 0 where
  malformed : ℕ → Text → ApportError
  base64 decompress : Text → Text → ApportError

pub data Value : Type 0 where
  text : Text → Value
  binary : Bytes → Value

-- `Value::as_text`
abbrev pub as_text : Value → Option Text
as_text (text t) = some t
as_text (binary b) = none

pub data Result (E A : Type 0) : Type 0 where
  ok : A → Result E A
  err : E → Result E A

-- The field that is being read: its name, its chunks and `is_binary`.
pub record Current : Type 0 where
  pub name : Text
  pub chunks : List Text
  pub is_binary : Bool

abbrev pub Fields : Type 0
Fields = TextMap Value

-- A chunk behind the others; `.` is a blank line of a text.
abbrev pub push_chunk : Text → Current → Current
push_chunk rest c = record c {
  chunks = c.chunks ++ (if not c.is_binary && text_eq rest (codes ".") then [] else rest) ∷ [];
}

-- The field that a line opens, from what stands before and behind its first colon.
unfoldable pub open_field : Text → Text → Current
unfolding trim trim_start text_eq is_empty
open_field name behind =
    let rest = trim_start behind in
    let is_binary = text_eq rest (codes "base64") in
    record {
      name = trim name;
      chunks = if not is_binary && not (is_empty rest) then rest ∷ [] else [];
      is_binary = is_binary;
    }

module _ (decode : Text → Result Text Bytes) (inflate : Bytes → Result Text Bytes) where
  abbrev decoded_onto :
      Text → Result Text Bytes → Result ApportError Bytes → Result ApportError Bytes
  decoded_onto name (err e) more = err (base64 name e)
  decoded_onto name (ok b) (err e) = err e
  decoded_onto name (ok b) (ok bs) = ok (b ++ bs)

  -- The loop over the chunks: the first that is refused is the error.
  unfoldable pub decode_chunks : Text → List Text → Result ApportError Bytes
  unfolding trim
  decode_chunks name [] = ok []
  decode_chunks name (chunk ∷ rest) =
      decoded_onto name (decode (trim chunk)) (decode_chunks name rest)

  abbrev inflated : Text → Result Text Bytes → Result ApportError (Text × Value)
  inflated name (err e) = err (decompress name e)
  inflated name (ok plain) = ok (name, binary plain)

  abbrev finish_binary : Text → Result ApportError Bytes → Result ApportError (Text × Value)
  finish_binary name (err e) = err e
  finish_binary name (ok compressed) = inflated name (inflate compressed)

  unfoldable pub finish_field : Current → Result ApportError (Text × Value)
  unfolding decode_chunks join
  finish_field c =
      if not c.is_binary
      then ok (c.name, text (join (codes "\n") c.chunks))
      else finish_binary c.name (decode_chunks c.name c.chunks)

  abbrev pub insert_finished :
      Fields → Result ApportError (Text × Value) → Result ApportError Fields
  insert_finished fields (err e) = err e
  insert_finished fields (ok (name, value)) = ok (insert name value fields)

  -- `if let Some(finished)`
  abbrev pub finish_current : Option Current → Fields → Result ApportError Fields
  finish_current none fields = ok fields
  finish_current (some c) fields = insert_finished fields (finish_field c)

  abbrev pub opened : ℕ → Option (Text × Text) → Result ApportError Current
  opened index none = err (malformed (index + 1) (codes "expected `Key: value`"))
  opened index (some (name, behind)) = ok (open_field name behind)

  abbrev pub next_field :
      Result ApportError Fields
      → Result ApportError Current
      → Result ApportError (Option Current × Fields)
  next_field (err e) c = err e
  next_field (ok fields) (err e) = err e
  next_field (ok fields) (ok c) = ok (some c, fields)

  abbrev pub continued :
      ℕ → Text → Option Current → Fields → Result ApportError (Option Current × Fields)
  continued index rest none fields =
      err (malformed (index + 1) (codes "continuation before any field"))
  continued index rest (some c) fields = ok (some (push_chunk rest c), fields)

  abbrev pub line_with :
      ℕ
      → Text
      → Option Text
      → Option Current
      → Fields
      → Result ApportError (Option Current × Fields)
  line_with index line (some rest) current fields = continued index rest current fields
  line_with index line none current fields =
      if is_empty (trim line)
      then ok (current, fields)
      else next_field (finish_current current fields) (opened index (split_once b':' line))

  -- One round of the loop of `parse`.
  unfoldable pub parse_line :
      ℕ → Text → Option Current → Fields → Result ApportError (Option Current × Fields)
  unfolding strip_prefix is_empty trim text_eq finish_field insert split_once open_field
  parse_line index line current fields =
      line_with index line (strip_prefix (codes " ") line) current fields

  -- The rest of the loop and what follows it.
  unfoldable pub parse_rest :
      ℕ → List Text → Result ApportError (Option Current × Fields) → Result ApportError Fields
  unfolding parse_line finish_field insert
  parse_rest index ls (err e) = err e
  parse_rest index [] (ok (current, fields)) = finish_current current fields
  parse_rest index (line ∷ ls) (ok (current, fields)) =
      parse_rest (index + 1) ls (parse_line index line current fields)

  unfoldable pub parse : Text → Result ApportError Fields
  unfolding lines parse_rest
  parse input = parse_rest 0 (lines input) (ok (none, []))
