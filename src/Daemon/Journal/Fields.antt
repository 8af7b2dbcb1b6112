-- ===== src/Daemon/Journal/Fields.antt =====
-- The fields of a coredump record of crates/blankres-daemon/src/journal.rs, by what a lookup shows.
use blankres.Prelude.{
  ℕ, false, Option, none, some, List, [], ◌∷◌, ◌++◌, ◌≡◌, ◌∙◌, refl, sym, ap, arith, inl, inr,
  Option-cases, Bool-cases, if◌then◌else◌,
}
use blankres.Collect.Record.{field}
use blankres.Daemon.Journal.{
  JournalEntry, Value, coredump_fields, push_named, to_coredump_record, decode_fields, decode_field,
  entry_of, entry_with, parse_entry,
}
use blankres.Text.{Text, codes, text_eq, strip_prefix}
use blankres.Text.Bytes.{Bytes}
use blankres.Text.Equality.{text_eq_iff}
use blankres.TextMap.{TextMap, lookup, insert, collect_onto, AllAbove, IsSorted}
use blankres.TextMap.Laws.{lookup-insert, lookup-AllAbove, insert-IsSorted}

strip_prefix-append : (p t : Text) → strip_prefix p (p ++ t) ≡ some t
unfolding strip_prefix
strip_prefix-append [] t = refl
strip_prefix-append (c ∷ p) t = ground (arith, strip_prefix-append p t)

append-strip_prefix : (p s : Text) {t : Text} → strip_prefix p s ≡ some t → s ≡ p ++ t
unfolding strip_prefix
append-strip_prefix [] s e = ground (arith, e)
append-strip_prefix (c ∷ p) [] e = ground (arith, e)
append-strip_prefix (c ∷ p) (d ∷ s) {t = t} e = ground (arith, append-strip_prefix p s {t = t}, e)

-- What is found in the entry, else in the record so far.
abbrev or_else : Option Text → Option Text → Option Text
or_else none o = o
or_else (some v) o = some v

text_eq-append : (p s t : Text) → text_eq (p ++ s) (p ++ t) ≡ text_eq s t
unfolding text_eq
text_eq-append [] s t = refl
text_eq-append (c ∷ p) s t = ground (arith, text_eq-append p s t)

abbrev prefix : Text
prefix = codes "COREDUMP_"

other_key : (p j name : Text) → strip_prefix p j ≡ none → text_eq j (p ++ name) ≡ false
other_key p j name e = elim (Bool-cases (text_eq j (p ++ name))) [
  | inr other ↦ other
  | inl same ↦
      absurd (ground (arith, e, same, text_eq_iff j (p ++ name), strip_prefix-append p name))
]

prefixed_key :
    (p j k name : Text) → strip_prefix p j ≡ some k → text_eq j (p ++ name) ≡ text_eq k name
prefixed_key p j k name e = rw (append-strip_prefix p j e) (text_eq-append p k name)

coredump_fields-cons :
    (j v : Text) (m : TextMap Text)
    → coredump_fields ((j, v) ∷ m) ≡ push_named (strip_prefix prefix j) v (coredump_fields m)
unfolding coredump_fields
coredump_fields-cons j v m = refl

lookup-cons :
    (k j v : Text) (m : TextMap Text)
    → lookup k ((j, v) ∷ m) ≡ (if text_eq j k then some v else lookup k m)
unfolding lookup
lookup-cons k j v m = refl

lookup-nil : (k : Text) → lookup {V = Text} k [] ≡ none
unfolding lookup
lookup-nil k = refl

-- One field whose name has the prefix, in front of the others.
named_field :
    (k j v name : Text) (acc m : TextMap Text)
    → strip_prefix prefix j ≡ some k
    → AllAbove j m
    → or_else (lookup (prefix ++ name) m) (lookup name (insert k v acc))
      ≡ or_else (lookup (prefix ++ name) ((j, v) ∷ m)) (lookup name acc)
named_field k j v name acc m e above =
    let same = prefixed_key prefix j k name e in
    rw (lookup-insert k name v acc, lookup-cons (prefix ++ name) j v m, same)
      (elim (Bool-cases (text_eq k name)) [
        | inr other ↦ rw other refl
        | inl found ↦
            let key : j ≡ prefix ++ name = (text_eq_iff j (prefix ++ name)).0 (same ∙ found) in
            let gone : lookup (prefix ++ name) m ≡ none =
              rw (sym key) (lookup-AllAbove j m above) in
            rw (found, gone) refl
      ])

coredump_fields-lookup :
    (m : TextMap Text) (acc : TextMap Text) (name : Text)
    → IsSorted m
    → lookup name (collect_onto acc (coredump_fields m))
      ≡ or_else (lookup (prefix ++ name) m) (lookup name acc)
unfolding collect_onto coredump_fields
coredump_fields-lookup [] acc name h = rw (lookup-nil (prefix ++ name)) refl
coredump_fields-lookup ((j, v) ∷ m) acc name h = elim (Option-cases (strip_prefix prefix j)) [
  | inl e ↦
      rw (e, lookup-cons (prefix ++ name) j v m, other_key prefix j name e)
        (coredump_fields-lookup m acc name h.1)
  | inr (k, e) ↦
      rw e (coredump_fields-lookup m (insert k v acc) name h.1 ∙ named_field k j v name acc m e h.0)
]

or_else-none : (o : Option Text) → or_else o none ≡ o
or_else-none none = refl
or_else-none (some v) = refl

module _ (from_utf8_lossy : Bytes → Text) where
  decode_fields-IsSorted :
      (m : TextMap Text) (o : List (Text × Value))
      → IsSorted m
      → IsSorted (decode_fields from_utf8_lossy m o)
  unfolding decode_fields
  decode_fields-IsSorted m [] h = h
  decode_fields-IsSorted m ((key, value) ∷ o) h =
      elim (Option-cases (decode_field from_utf8_lossy value)) [
        | inl e ↦ rw e (decode_fields-IsSorted m o h)
        | inr (text, e) ↦
            rw e (decode_fields-IsSorted (insert key text m) o (insert-IsSorted key text m h))
      ]

  entry_with-fields :
      (o : Option (List (Text × Value))) (now : ℕ) (e : JournalEntry)
      → entry_with from_utf8_lossy o now ≡ some e
      → IsSorted e.fields
  unfolding entry_of
  entry_with-fields none now e h = absurd (cc)
  entry_with-fields (some o) now e h =
      let fields : decode_fields from_utf8_lossy [] o ≡ e.fields =
        ap (λ x. elim x [ none ↦ [] | some y ↦ y.fields ]) h in
      rw (sym fields) (decode_fields-IsSorted [] o tt)

  -- The record that the collectors read holds under each name what the journal's line, once parsed, holds
  -- under that name behind `COREDUMP_`, and nothing under a name that the line does not have so.
  pub to_coredump_record-lookup :
      (from_str : Text → Option (List (Text × Value))) (line : Text) (now : ℕ) (e : JournalEntry)
      (name : Text)
      → parse_entry from_utf8_lossy from_str line now ≡ some e
      → field (to_coredump_record e) name ≡ lookup (codes "COREDUMP_" ++ name) e.fields
  unfolding to_coredump_record field parse_entry
  to_coredump_record-lookup from_str line now e name h =
      coredump_fields-lookup e.fields [] name (entry_with-fields (from_str line) now e h)
      ∙ or_else-none (lookup (prefix ++ name) e.fields)
