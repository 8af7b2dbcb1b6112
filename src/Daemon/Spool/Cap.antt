-- ===== src/Daemon/Spool/Cap.antt =====
-- The spool of crates/blankres-daemon/src/spool.rs stays within its cap and gives back what it took.
use blankres.Prelude.{
  ℕ, ◌+◌, ◌-◌, ◌≤◌, ◌<◌, zero, suc, true, false, Option, none, some, List, [], ◌∷◌, ◌++◌, ◌≡◌, refl,
  arith, length, drop, length-append,
}
use blankres.Daemon.Spool.{
  Spool, named, max_spooled, trim, spool_name, saved, push, is_json, drain_list,
}
use blankres.Report.Event.{CrashEvent}
use blankres.Text.{Text, codes, text_eq, after_last}
use blankres.Text.Bytes.{Bytes}
use blankres.Text.Equality.{text_eq_iff, text_eq_refl}
use blankres.Text.Numbers.{to_decimal}
use blankres.TextMap.{TextMap, insert, lookup}
use blankres.TextMap.Laws.{lookup-insert}

length-drop : {A : Type 0} (n : ℕ) (xs : List A) → length (drop n xs) ≡ length xs - n
length-drop zero xs = omega arith
length-drop (suc n) [] = omega arith
length-drop (suc n) (x ∷ xs) = omega (arith, length-drop n xs)

length-insert : (k : Text) (v : Bytes) (m : TextMap Bytes) → length (insert k v m) ≤ suc (length m)
unfolding insert
length-insert k v [] = omega arith
length-insert k v ((j, w) ∷ m) = ground (arith, length-insert k v m)

length-trim : (s : Spool) → length (trim s) ≤ 255
unfolding trim
length-trim s = ground (arith, length-drop (length s - max_spooled + 1) s)

saved-cap :
    (s : Spool) (path : Option Text) (bytes : Option Bytes)
    → length s ≤ 255
    → length (saved s path bytes).1 ≤ 256
saved-cap s none bytes h = omega arith
saved-cap s (some path) none h = omega arith
saved-cap s (some path) (some bytes) h = omega (arith, length-insert path bytes s)

lookup-drain_list :
    (from_slice : Bytes → Option CrashEvent) (path : Text) (bytes : Bytes) (event : CrashEvent)
    (s : Spool)
    → is_json path ≡ true
    → from_slice bytes ≡ some event
    → lookup path s ≡ some bytes
    → lookup path (drain_list from_slice s).0 ≡ some event
unfolding lookup drain_list
lookup-drain_list from_slice path bytes event [] j e l = ground arith
lookup-drain_list from_slice path bytes event ((k, b) ∷ s) j e l =
    ground (arith, lookup-drain_list from_slice path bytes event s j e, text_eq_iff k path)

after_last-append :
    (sep : ℕ) (s t r : Text) → after_last sep t ≡ some r → after_last sep (s ++ t) ≡ some r
unfolding after_last
after_last-append sep [] t r e = e
after_last-append sep (c ∷ s) t r e = rw (after_last-append sep s t r e) refl

text_eq-longer : (s t : Text) → length t < length s → text_eq s t ≡ false
text_eq-longer s t h = ground (arith, text_eq_iff s t)

ends_json : after_last b'.' (codes ".json") ≡ some (codes "json")
unfolding after_last
ends_json = refl

is_json-parts : (d p : Text) → is_json (d ++ codes "-" ++ p ++ codes ".json") ≡ true
unfolding is_json
is_json-parts d p = ground (
  arith,
  text_eq-longer (d ++ codes "-" ++ p ++ codes ".json") (codes ".json") (
      ground (
        arith,
        length-append (d ++ codes "-" ++ p) (codes ".json"),
        length-append (d ++ codes "-") p,
        length-append d (codes "-"),
      )),
  after_last-append b'.' (d ++ codes "-" ++ p) (codes ".json") (codes "json") ends_json,
  text_eq_refl (codes "json"),
)

is_json-named :
    (event : CrashEvent) (prefix : Option Text) (path : Text)
    → named event prefix ≡ some path
    → is_json path ≡ true
is_json-named event none path e = ground (arith, e)
is_json-named event (some prefix) path e =
    ground (arith, e, is_json-parts (to_decimal event.timestamp) prefix)

is_json-spool_name :
    (event : CrashEvent) (path : Text) → spool_name event ≡ some path → is_json path ≡ true
unfolding spool_name
is_json-spool_name event path e = is_json-named event _ path e

push_lem :
    (to_vec : CrashEvent → Option Bytes) (s : Spool) (event : CrashEvent)
    → push to_vec s event ≡ saved (trim s) (spool_name event) (to_vec event)
unfolding push
push_lem to_vec s event = refl

-- Behind a push of an event there are at most 256 files in the spool, however many there were; and
-- where the push writes a file, the list that is drained next has the event under the path that the
-- push returned, if JSON reads back the event that it printed.
pub push_drain :
    (to_vec : CrashEvent → Option Bytes) (from_slice : Bytes → Option CrashEvent) (s : Spool)
    (event : CrashEvent) (path : Text) (bytes : Bytes)
    → spool_name event ≡ some path
    → to_vec event ≡ some bytes
    → from_slice bytes ≡ some event
    → (length (push to_vec s event).1 ≤ max_spooled)
      × ((push to_vec s event).0 ≡ some path)
      × (lookup path (drain_list from_slice (push to_vec s event).1).0 ≡ some event)
push_drain to_vec from_slice s event path bytes name printed parsed = (
  rw (push_lem to_vec s event)
      (saved-cap (trim s) (spool_name event) (to_vec event) (length-trim s)),
  rw (push_lem to_vec s event, name, printed) refl,
  rw (push_lem to_vec s event, name, printed)
      (lookup-drain_list from_slice path bytes event (insert path bytes (trim s))
        (is_json-spool_name event path name) parsed
        (rw (lookup-insert path path bytes (trim s), text_eq_refl path) refl)),
)
