-- ===== src/Daemon/Spool.antt =====
-- crates/blankres-daemon/src/spool.rs: the directory of events that could not be sent, as its files in
-- the order of their names. JSON is a parameter, and the disk itself does not fail here.
pub mod Cap
use blankres.Prelude.{
  ℕ, ◌+◌, ◌-◌, Bool, true, false, not, ◌&&◌, Option, none, some, List, [], ◌∷◌, ◌++◌, length, drop,
  min, ltb, if◌then◌else◌,
}
use blankres.Report.Event.{CrashEvent}
use blankres.Text.{Text, codes, text_eq, after_last}
use blankres.Text.Bytes.{Bytes, byte_len, slice_to}
use blankres.Text.Numbers.{to_decimal}
use blankres.TextMap.{TextMap, insert, remove}

abbrev pub max_spooled : ℕ
max_spooled = 256

abbrev pub Spool : Type 0
Spool = TextMap Bytes

-- `trim`: the names that sort first go.
unfoldable pub trim : Spool → Spool
trim s = if ltb (length s) max_spooled then s else drop (length s - max_spooled + 1) s

abbrev pub named : CrashEvent → Option Text → Option Text
named event none = none
named event (some prefix) =
    some (to_decimal event.timestamp ++ codes "-" ++ prefix ++ codes ".json")

-- The name of an event's file; a slice that cuts a character in two panics.
unfoldable pub spool_name : CrashEvent → Option Text
unfolding to_decimal slice_to byte_len
spool_name event =
    named event (slice_to (min 16 (byte_len event.signature.hash)) event.signature.hash)

abbrev pub saved : Spool → Option Text → Option Bytes → Option Text × Spool
saved s none bytes = (none, s)
saved s (some path) none = (none, s)
saved s (some path) (some bytes) = (some path, insert path bytes s)

-- `Spool::push`: the path, `none` where it fails behind the trim.
unfoldable pub push : (CrashEvent → Option Bytes) → Spool → CrashEvent → Option Text × Spool
unfolding trim spool_name insert
push to_vec s event = saved (trim s) (spool_name event) (to_vec event)

abbrev extension_is : Text → Option Text → Bool
extension_is wanted none = false
extension_is wanted (some e) = text_eq e wanted

-- `path.extension() == Some("json")`; `.json` alone has no extension.
unfoldable pub is_json : Text → Bool
unfolding after_last text_eq
is_json name =
    not (text_eq name (codes ".json")) && extension_is (codes "json") (after_last b'.' name)

-- `Spool::drain_list`: the events, and the files without the corrupt ones.
unfoldable pub drain_list : (Bytes → Option CrashEvent) → Spool → TextMap CrashEvent × Spool
unfolding is_json
drain_list from_slice [] = ([], [])
drain_list from_slice ((path, bytes) ∷ s) =
    let (out, left) = drain_list from_slice s in
    if is_json path
    then elim (from_slice bytes) [
      | none ↦ (out, left)
      | some event ↦ ((path, event) ∷ out, (path, bytes) ∷ left)
    ]
    else (out, (path, bytes) ∷ left)
