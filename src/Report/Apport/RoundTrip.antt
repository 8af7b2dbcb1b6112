-- ===== src/Report/Apport/RoundTrip.antt =====
-- The reader of crates/blankres-report/src/apport.rs against a printer of the format.
use blankres.Prelude.{
  ℕ, ◌+◌, Bool, true, false, Option, none, some, List, [], ◌∷◌, ◌++◌, all, length, map,
  append_assoc, append-nil, ◌≡◌, ◌∙◌, refl, ap, arith,
}
use blankres.Report.Apport.{
  Result, ok, Current, Fields, push_chunk, open_field, decode_chunks, finish_field, insert_finished,
  finish_current, next_field, parse_line, parse_rest, parse,
}
use blankres.Text.{
  Text, codes, text_eq, strip_prefix, trim_start, lines, drop_while_end, is_whitespace,
}
use blankres.Text.Bytes.{Bytes}
use blankres.Text.Trim.{trim-middle}
use blankres.TextMap.{insert, collect_onto}
use blankres.Report.Apport.Printer.{
  Field, text_field, binary_field, blank_as_dot, field_lines, print_fields, text_lines, field_value,
  IsName, is_empty-middle, strip_space-name, split_once-name, not_dot, push_chunk-text,
  push_chunk-binary, open_field-text, open_field-binary,
}

module _ (decode : Text → Result Text Bytes) (inflate : Bytes → Result Text Bytes) where
  -- The first line of a text has no space in front and is not `base64`; no line is a dot. The chunks of a binary
  -- value decode, and inflate to it.
  abbrev pub IsField : Field → Type 0
  IsField (text_field name first rest) =
      IsName name
      × (trim_start first ≡ first)
      × (text_eq first (codes "base64") ≡ false)
      × (all not_dot rest ≡ true)
  IsField (binary_field name chunks plain) =
      IsName name
      × ((z : Bytes) × (decode_chunks decode inflate name chunks ≡ ok z) × (inflate z ≡ ok plain))

  abbrev pub AllFields : List Field → Type 0
  AllFields [] = Unit
  AllFields (f ∷ fs) = IsField f × AllFields fs

  parse_line-open :
      (i : ℕ) (name o : Text) (current : Option Current) (fields : Fields)
      → IsName name
      → parse_line decode inflate i (name ++ b':' ∷ o) current fields
        ≡ next_field decode inflate
            (finish_current decode inflate current fields)
            (ok (open_field name o))
  unfolding parse_line is_whitespace
  parse_line-open i name o current fields h =
      rw
        (
          strip_space-name name o h.1,
          trim-middle name b':' o refl,
          is_empty-middle (trim_start name) b':' (drop_while_end is_whitespace o),
          split_once-name name o h.0,
        )
        refl

  parse_line-continue :
      (i : ℕ) (w : Text) (c : Current) (fields : Fields)
      → parse_line decode inflate i (b' ' ∷ w) (some c) fields ≡ ok (some (push_chunk w c), fields)
  unfolding parse_line strip_prefix
  parse_line-continue i w c fields = refl

  parse_rest-continue :
      (i : ℕ) (w : Text) (more : List Text) (c : Current) (fields : Fields)
      → parse_rest decode inflate i ((b' ' ∷ w) ∷ more) (ok (some c, fields))
        ≡ parse_rest decode inflate (i + 1) more (ok (some (push_chunk w c), fields))
  unfolding parse_rest
  parse_rest-continue i w more c fields =
      ap (parse_rest decode inflate (i + 1) more) (parse_line-continue i w c fields)

  -- Lines behind a field, each of which adds one chunk.
  parse_rest-chunks :
      (line : Text → Text) (adds : Text → Bool) (binary_too : Bool)
      → ((w : Text) (c : Current)
          → adds w ≡ true
          → c.is_binary ≡ binary_too
          → push_chunk (line w) c ≡ record c { chunks = c.chunks ++ w ∷ [] })
      → (i : ℕ) (ws more : List Text) (c : Current) (fields : Fields) → all adds ws ≡ true
      → c.is_binary ≡ binary_too
      → parse_rest decode inflate i (map (λ w. b' ' ∷ line w) ws ++ more) (ok (some c, fields))
        ≡ parse_rest decode inflate
            (i + length ws)
            more
            (ok (some (record c { chunks = c.chunks ++ ws }), fields))
  parse_rest-chunks line adds binary_too one i [] more c fields h e =
      let none_more : i + 0 ≡ i = omega arith in rw (append-nil c.chunks, none_more) refl
  parse_rest-chunks line adds binary_too one i (w ∷ ws) more c fields h e =
      let first : adds w ≡ true = ground (arith, h) in
      let others : all adds ws ≡ true = ground (arith, h) in
      let index : (i + 1) + length ws ≡ i + length (w ∷ ws) = omega arith in
      parse_rest-continue i (line w) (map (λ w. b' ' ∷ line w) ws ++ more) c fields
      ∙ ap
          (λ x.
            parse_rest decode inflate (i + 1) (map (λ w. b' ' ∷ line w) ws ++ more)
              (ok (some x, fields)))
          (one w c first e)
      ∙ parse_rest-chunks line adds binary_too one (i + 1) ws more
          (record c { chunks = c.chunks ++ w ∷ [] }) fields others e
      ∙ rw (index, append_assoc c.chunks (w ∷ []) ws) refl

  parse_rest-end :
      (i : ℕ) (current : Option Current) (fields : Fields)
      → parse_rest decode inflate i [] (ok (current, fields))
        ≡ finish_current decode inflate current fields
  unfolding parse_rest
  parse_rest-end i current fields = refl

  -- The field that the lines leave to be finished.
  abbrev current_of : Field → Current
  current_of (text_field name first rest) = record {
    name = name;
    chunks = text_lines first rest;
    is_binary = false;
  }
  current_of (binary_field name chunks plain) = record {
    name = name;
    chunks = chunks;
    is_binary = true;
  }

  finish_field-field :
      (f : Field) → IsField f → finish_field decode inflate (current_of f) ≡ ok (field_value f)
  unfolding finish_field
  finish_field-field (text_field name first rest) h = refl
  finish_field-field (binary_field name chunks plain) h =
      let (z, decoded, inflated) = h.1 in rw (decoded, inflated) refl

  parse_rest-open :
      (i : ℕ) (name o : Text) (c : Current) (more : List Text) (current : Option Current)
      (fields done : Fields)
      → IsName name
      → open_field name o ≡ c
      → finish_current decode inflate current fields ≡ ok done
      → parse_rest decode inflate i ((name ++ b':' ∷ o) ∷ more) (ok (current, fields))
        ≡ parse_rest decode inflate (i + 1) more (ok (some c, done))
  unfolding parse_rest
  parse_rest-open i name o c more current fields done h opens e =
      ap (parse_rest decode inflate (i + 1) more) {y = ok (some c, done)}
        (parse_line-open i name o current fields h ∙ rw (e, opens) refl)

  text_lines-append :
      (first : Text) (rest : List Text) → text_lines first [] ++ rest ≡ text_lines first rest
  text_lines-append [] rest = refl
  text_lines-append (c ∷ first) rest = refl

  all-true : (ws : List Text) → all (λ w. true) ws ≡ true
  all-true [] = refl
  all-true (w ∷ ws) = all-true ws

  -- The lines of a field, where what was read before can be finished.
  parse_rest-field :
      (i : ℕ) (f : Field) (more : List Text) (current : Option Current) (fields done : Fields)
      → IsField f
      → finish_current decode inflate current fields ≡ ok done
      → (j : ℕ) × (parse_rest decode inflate i (field_lines f ++ more) (ok (current, fields))
          ≡ parse_rest decode inflate j more (ok (some (current_of f), done)))
  parse_rest-field i (text_field name first rest) more current fields done h e =
      let c : Current = record { name = name; chunks = text_lines first []; is_binary = false } in
      (
        (i + 1) + length rest,
        parse_rest-open i name (b' ' ∷ first) c (map (λ w. b' ' ∷ blank_as_dot w) rest ++ more)
              current fields done h.0 (open_field-text name first h.0 h.1 h.2) e
            ∙ parse_rest-chunks blank_as_dot not_dot false push_chunk-text (i + 1) rest more c done
                h.3 refl
            ∙ rw (text_lines-append first rest) refl,
      )
  parse_rest-field i (binary_field name chunks plain) more current fields done h e =
      let c : Current = record { name = name; chunks = []; is_binary = true } in
      (
        (i + 1) + length chunks,
        parse_rest-open i name (codes " base64") c (map (λ w. b' ' ∷ w) chunks ++ more) current
              fields done h.0 (open_field-binary name h.0) e
            ∙ parse_rest-chunks (λ w. w) (λ w. true) true (λ w c any. push_chunk-binary w c) (i + 1)
                chunks more c done (all-true chunks) refl,
      )

  parse_rest-fields :
      (i : ℕ) (fs : List Field) (current : Option Current) (fields done : Fields)
      → AllFields fs
      → finish_current decode inflate current fields ≡ ok done
      → parse_rest decode inflate i (print_fields fs) (ok (current, fields))
        ≡ ok (collect_onto done (map field_value fs))
  unfolding collect_onto
  parse_rest-fields i [] current fields done h e = parse_rest-end i current fields ∙ e
  parse_rest-fields i (f ∷ fs) current fields done h e =
      let (j, read) = parse_rest-field i f (print_fields fs) current fields done h.0 e in
      let next = insert (field_value f).0 (field_value f).1 done in
      read
      ∙ parse_rest-fields j fs (some (current_of f)) done next h.1
          (ap (insert_finished decode inflate done) (finish_field-field f h.0))

  -- A file whose lines are those of the printed fields, in any number and any mixture of texts and binary
  -- values, is read back as exactly these fields, a later one in the place of an earlier one of its name.
  pub parse-print :
      (input : Text) (fs : List Field)
      → AllFields fs
      → lines input ≡ print_fields fs
      → parse decode inflate input ≡ ok (collect_onto [] (map field_value fs))
  unfolding parse
  parse-print input fs h e = rw e (parse_rest-fields 0 fs none [] [] h refl)
