-- ===== src/Daemon/Journal.antt =====
-- crates/blankres-daemon/src/journal.rs: entries of the journal. The JSON library is `from_str` and the
-- data type of its values, and `String::from_utf8_lossy` is a parameter; of the process that prints the
-- lines only its arguments are modelled.
pub mod Fields
use blankres.Prelude.{
  ◌++◌, if◌then◌else◌, ℕ, ◌/◌, ◌%◌, ◌^◌, Bool, false, Option, none, some, List, [], ◌∷◌,
}
use blankres.Collect.Record.{CoredumpRecord}
use blankres.Text.{trim, is_empty, Text, codes, text_eq, strip_prefix}
use blankres.Text.Bytes.{Bytes}
use blankres.Text.Numbers.{parse_uint}
use blankres.TextMap.{TextMap, lookup, insert, collect_onto}

pub record JournalEntry : Type 0 where
  pub fields : TextMap Text
  pub cursor : Text
  pub timestamp : ℕ

abbrev pub coredump_message_id : Text
coredump_message_id = codes "fc2e22bc6ee647b6b90729ab34a250b1"

abbrev pub text_or_default : Option Text → Text
text_or_default none = []
text_or_default (some t) = t

unfoldable pub message : JournalEntry → Text
unfolding lookup
message e = text_or_default (lookup (codes "MESSAGE") e.fields)

abbrev is_text : Text → Option Text → Bool
is_text wanted none = false
is_text wanted (some t) = text_eq t wanted

unfoldable pub is_coredump : JournalEntry → Bool
unfolding lookup text_eq
is_coredump e = is_text coredump_message_id (lookup (codes "MESSAGE_ID") e.fields)

abbrev pub push_named : Option Text → Text → List (Text × Text) → List (Text × Text)
push_named none value rest = rest
push_named (some name) value rest = (name, value) ∷ rest

-- The `filter_map` of `to_coredump_record`.
unfoldable pub coredump_fields : TextMap Text → List (Text × Text)
unfolding strip_prefix
coredump_fields [] = []
coredump_fields ((key, value) ∷ rest) =
    push_named (strip_prefix (codes "COREDUMP_") key) value (coredump_fields rest)

unfoldable pub to_coredump_record : JournalEntry → CoredumpRecord
unfolding coredump_fields collect_onto message
to_coredump_record e = record {
  fields = collect_onto [] (coredump_fields e.fields);
  message = message e;
  timestamp = e.timestamp;
  cursor = e.cursor;
}

-- A value of the JSON library, as far as `decode_field` looks: of an array what `as_u64` gives for each
-- item, of a number what `to_string` prints.
pub data Value : Type 0 where
  string : Text → Value
  array : List (Option ℕ) → Value
  number : Text → Value
  other : Value

-- `filter_map(as_u64)`, each `as u8`.
unfoldable pub bytes_of : List (Option ℕ) → Bytes
bytes_of [] = []
bytes_of (none ∷ vs) = bytes_of vs
bytes_of (some n ∷ vs) = n % 256 ∷ bytes_of vs

-- The microseconds of the entry as seconds; the clock where there are none.
abbrev timestamp_of : Option Text → ℕ → ℕ
timestamp_of none now = now
timestamp_of (some t) now = elim (parse_uint 10 (2 ^ 64) t) [
  | none ↦ now
  | some micros ↦ micros / 1000000
]

unfoldable pub entry_of : TextMap Text → ℕ → JournalEntry
unfolding lookup parse_uint
entry_of fields now = record {
  fields = fields;
  cursor = text_or_default (lookup (codes "__CURSOR") fields);
  timestamp = timestamp_of (lookup (codes "__REALTIME_TIMESTAMP") fields) now;
}

module _ (from_utf8_lossy : Bytes → Text) where
  unfoldable pub decode_field : Value → Option Text
  unfolding bytes_of
  decode_field (string text) = some text
  decode_field (array items) = some (from_utf8_lossy (bytes_of items))
  decode_field (number shown) = some shown
  decode_field other = none

  abbrev pub insert_decoded : Text → Option Text → TextMap Text → TextMap Text
  insert_decoded key none fields = fields
  insert_decoded key (some text) fields = insert key text fields

  -- The loop of `parse_entry`.
  unfoldable pub decode_fields : TextMap Text → List (Text × Value) → TextMap Text
  unfolding decode_field insert
  decode_fields fields [] = fields
  decode_fields fields ((key, value) ∷ rest) =
      decode_fields (insert_decoded key (decode_field value) fields) rest

  abbrev pub entry_with : Option (List (Text × Value)) → ℕ → Option JournalEntry
  entry_with none now = none
  entry_with (some o) now = some (entry_of (decode_fields [] o) now)

  -- `parse_entry`, with the clock; `from_str` gives the members of an object, and `none` for all else.
  unfoldable pub parse_entry :
      (Text → Option (List (Text × Value))) → Text → ℕ → Option JournalEntry
  unfolding decode_fields
  parse_entry from_str line now = entry_with (from_str line) now

  abbrev entry_or_next :
      Option JournalEntry × List Text
      → List Text
      → Option JournalEntry
      → Option JournalEntry × List Text
  entry_or_next later rest none = later
  entry_or_next later rest (some e) = (some e, rest)

  -- `JournalctlSource::next_entry` over the lines that are still to come, with those behind the entry: blank
  -- lines, and those that are no entry, are skipped.
  unfoldable pub next_entry :
      (Text → Option (List (Text × Value))) → ℕ → List Text → Option JournalEntry × List Text
  unfolding parse_entry trim is_empty
  next_entry from_str now [] = (none, [])
  next_entry from_str now (line ∷ rest) =
      let later = next_entry from_str now rest in
      if is_empty (trim line)
      then later
      else entry_or_next later rest (parse_entry from_str line now)

abbrev since : Option Text → Text
since none = codes "--since=now"
since (some cursor) = codes "--after-cursor=" ++ cursor

-- The arguments that `JournalctlSource::spawn` gives to journalctl.
abbrev pub journal_args : List Text → Option Text → List Text
journal_args matches cursor =
    codes "--output=json" ∷ codes "--follow" ∷ codes "--no-pager" ∷ since cursor ∷ matches

abbrev pub coredump_args : Option Text → List Text
coredump_args = journal_args ((codes "MESSAGE_ID=" ++ coredump_message_id) ∷ [])

abbrev pub kernel_args : Option Text → List Text
kernel_args = journal_args (codes "_TRANSPORT=kernel" ∷ codes "--priority=err" ∷ [])
