-- ===== src/Tests/Watch.antt =====
-- crates/blankres-daemon/src/main.rs, journal.rs and oops.rs at concrete inputs.
use blankres.Prelude.{
  ℕ, true, false, Option, none, some, List, [], ◌∷◌, ◌++◌, filter, map, ◌≡◌, refl, ◌≢◌, arith,
}
use blankres.Collect.Record.{field}
use blankres.Collect.Interfaces.{IoResult}
use blankres.Daemon.Config.{ClientConfig, Env, default_config, load}
use blankres.Daemon.Watch.OptIn.{run_daemon-opt_in}
use blankres.Daemon.Journal.{
  JournalEntry, Value, string, array, message, is_coredump, to_coredump_record, entry_of,
  parse_entry,
}
use blankres.Daemon.Journal.Fields.{to_coredump_record-lookup}
use blankres.Daemon.Oops.{OopsBuilder, new_oops, starts_oops, parse_call_trace, to_event}
use blankres.Daemon.Oops.Trace.{TraceLine, line_here, line_there, to_event-offsets}
use blankres.Daemon.Watch.{
  run_daemon, KernelHost, Loop, kernel, coredump, set_kernel_cursor, kernel_line, run_loop,
}
use blankres.Daemon.Watch.Coalesce.{group, all_lines, pending_lines, group-markers}
use blankres.Daemon.Watch.Cursor.{last_cursor, flush_all}
use blankres.Daemon.Watch.Kernel.{watch, watch_refines}
use blankres.Daemon.Watch.Lost.{coredump_saves_past_oops}
use blankres.Tests.Daemon.{parsed, printed, collector, config, surroundings, clock, world, reason}
use blankres.Tests.Data.{digest, system}
use blankres.Text.{Text, codes, contains, starts_with, trim, text_eq, text_le}
use blankres.Text.Bytes.{Bytes}
use blankres.TextMap.{lookup, insert}

abbrev lossy : Bytes → Text
lossy bytes = bytes

abbrev members : Text → Option (List (Text × Value))
members line = some (
    (codes "COREDUMP_EXE", string (codes "/usr/bin/cat"))
    ∷ (codes "COREDUMP_CMDLINE", array (some 99 ∷ some 0 ∷ []))
    ∷ [])

abbrev dump_entry : JournalEntry
dump_entry = record {
  fields =
      (codes "COREDUMP_CMDLINE", 99 ∷ 0 ∷ []) ∷ (codes "COREDUMP_EXE", codes "/usr/bin/cat") ∷ [];
  cursor = [];
  timestamp = 7;
}

members_entry : parse_entry lossy members [] 7 ≡ some dump_entry
unfolding parse_entry entry_of insert lookup text_eq text_le
members_entry = refl

to_coredump_record-lookup_example :
    field (to_coredump_record dump_entry) (codes "EXE")
    ≡ lookup (codes "COREDUMP_" ++ codes "EXE") dump_entry.fields
to_coredump_record-lookup_example =
    to_coredump_record-lookup lossy members [] 7 dump_entry (codes "EXE") members_entry

abbrev trace_line : TraceLine
trace_line = record {
  symbol = codes " do_page_fault";
  here = codes "0x1c9/0x4c0";
  there = codes "0x2/0x9";
}

abbrev pub oops_here : OopsBuilder
oops_here = record { started_at = 5; lines = codes "Call Trace:" ∷ line_here trace_line ∷ [] }

abbrev oops_there : OopsBuilder
oops_there = record { started_at = 6; lines = codes "Call Trace:" ∷ line_there trace_line ∷ [] }

one_frame : parse_call_trace oops_here.lines ≢ []
unfolding parse_call_trace
one_frame e = ground (arith, e)

to_event-offsets_example :
    (to_event digest (codes "0.1") oops_here system (codes "m") 1).signature
    ≡ (to_event digest (codes "0.1") oops_there system (codes "n") 2).signature
unfolding contains trim starts_with
to_event-offsets_example =
    to_event-offsets digest (codes "0.1") oops_here oops_there (codes "Call Trace:" ∷ [])
      (trace_line ∷ []) system system (codes "m") (codes "n") 1 2 refl refl refl refl one_frame

abbrev kernel_entry : ℕ → Text → JournalEntry
kernel_entry now line = record {
  fields = (codes "MESSAGE", line) ∷ [];
  cursor = codes "k";
  timestamp = now;
}

abbrev burst : List JournalEntry
burst =
    kernel_entry 5 (codes "Oops: 0002")
    ∷ kernel_entry 6 (codes "Call Trace:")
    ∷ kernel_entry 90 (codes "kernel BUG at")
    ∷ []

group-markers_example :
    filter starts_oops (all_lines (group burst none))
    ≡ filter starts_oops (pending_lines none ++ map message burst)
group-markers_example = group-markers burst none

abbrev pub kernel_host : KernelHost
kernel_host = record {
  system = system;
  machine_id = codes "m";
  network = surroundings.network;
  client_ready = true;
  spool_ready = true;
}

abbrev start : Loop
start = record { oops = none; world = world; saved = world.state }

abbrev watched : Loop
watched = watch digest (codes "0.1") reason printed kernel_host collector config true burst start

watch_refines_example :
    (watched.world
      ≡ set_kernel_cursor
          (last_cursor none burst)
          (flush_all digest (codes "0.1") reason printed kernel_host (group burst none) world))
    × (watched.oops ≡ none)
    × (true ≡ true → watched.saved ≡ watched.world.state)
watch_refines_example =
    watch_refines digest (codes "0.1") reason printed kernel_host collector config true burst start

abbrev oops_line : JournalEntry
oops_line = kernel_entry 5 (codes "Oops: 0002")

abbrev dump_line : JournalEntry
dump_line = record {
  fields = (codes "MESSAGE_ID", codes "fc2e22bc6ee647b6b90729ab34a250b1") ∷ [];
  cursor = codes "d";
  timestamp = 6;
}

abbrev lost : Loop
lost =
    run_loop digest (codes "0.1") reason printed collector config kernel_host true false
      (kernel (some oops_line) ∷ coredump surroundings clock (some dump_line) ∷ []) start

line_starts : starts_oops (message oops_line) ≡ true
unfolding starts_oops message text_eq
line_starts = refl

dump_is_coredump : is_coredump dump_line ≡ true
unfolding is_coredump
dump_is_coredump = refl

coredump_saves_past_oops_example :
    (lost.saved.kernel_cursor ≡ some (codes "k"))
    × (lost.oops ≡ some (new_oops 5 (message oops_line)))
    × ((kernel_line digest (codes "0.1") reason printed kernel_host oops_line start).world
        ≡ set_kernel_cursor (some (codes "k")) world)
coredump_saves_past_oops_example =
    coredump_saves_past_oops digest (codes "0.1") reason printed collector config kernel_host
      surroundings clock oops_line dump_line start refl line_starts dump_is_coredump

abbrev no_env : Env
no_env name = none

abbrev reads_default : Text → Option ClientConfig
reads_default content = some default_config

default_loaded : load reads_default no_env (IoResult.ok []) ≡ some default_config
unfolding load
default_loaded = refl

abbrev opted_out : Loop
opted_out =
    run_daemon digest (codes "0.1") reason printed parsed collector default_config kernel_host true
      false (codes "salt") (kernel (some oops_line) ∷ []) world

run_daemon-opt_in_example : (opted_out.world ≡ world) × (opted_out.saved ≡ world.state)
run_daemon-opt_in_example =
    run_daemon-opt_in digest (codes "0.1") reason printed parsed reads_default no_env []
      default_config default_config collector kernel_host true false (codes "salt")
      (kernel (some oops_line) ∷ []) world refl refl refl default_loaded
