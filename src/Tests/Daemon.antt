-- ===== src/Tests/Daemon.antt =====
-- crates/blankres-daemon at concrete inputs.
use blankres.Prelude.{
  ◌||◌, ℕ, ◌≤◌, leb, true, Option, none, some, List, [], ◌∷◌, ◌≡◌, refl, arith, length,
  if◌then◌else◌,
}
use blankres.Client.{Answer}
use blankres.Client.{send_events}
use blankres.Collect.Budget.{Exhausted}
use blankres.Collect.Interfaces.{IoResult, Filesystem, PackageBackend}
use blankres.Collect.Record.{CoredumpRecord, executable}
use blankres.Collect.Stage1.{Stage1Collector, text_or}
use blankres.Daemon.Config.{ClientConfig, default_config}
use blankres.Daemon.Drain.{events_of, drain_spool}
use blankres.Daemon.Drain.Exact.{is_ok, drain_spool_exact}
use blankres.Daemon.Reporter.{Clock, Surroundings, World, probe, handle_coredump}
use blankres.Daemon.Reporter.Effects.{Effects, is_suppressed, has_declined}
use blankres.Daemon.Reporter.Outcomes.{handle_coredump-Effects}
use blankres.Daemon.Spool.{Spool, max_spooled, push, spool_name, drain_list}
use blankres.Daemon.Spool.Cap.{push_drain}
use blankres.Daemon.State.{default_state, charge_rate_limit}
use blankres.Daemon.State.RateLimit.{passed, passed-le-limit}
use blankres.Report.Event.{CrashEvent}
use blankres.Tests.Data.{digest, crash, directive, system}
use blankres.Text.{Text, codes, text_eq}
use blankres.Text.Bytes.{Bytes}
use blankres.TextMap.{lookup}

abbrev cat : Text
cat = codes "cat"

abbrev run : List (Text × ℕ)
run = (cat, 100) ∷ (codes "ls", 150) ∷ (cat, 200) ∷ (cat, 3000) ∷ []

passed-le-limit_example : passed 2 cat default_state run ≤ 2
unfolding text_eq lookup
passed-le-limit_example = passed-le-limit 2 cat 100 default_state run refl (ground arith)

abbrev pub printed : CrashEvent → Option Bytes
printed event = some (1 ∷ [])

abbrev pub parsed : Bytes → Option CrashEvent
parsed [] = none
parsed (c ∷ cs) = some crash

push_drain_example :
    (length (push printed [] crash).1 ≤ max_spooled)
    × ((push printed [] crash).0 ≡ some (codes "1000-aa.json"))
    × (lookup (codes "1000-aa.json") (drain_list parsed (push printed [] crash).1).0 ≡ some crash)
unfolding spool_name
push_drain_example =
    push_drain printed parsed [] crash (codes "1000-aa.json") (1 ∷ []) refl refl refl

abbrev files : Filesystem
files = record {
  read_to_string = λ path. IoResult.err (codes "absent");
  metadata_len = λ path. IoResult.ok 3;
  list_dir = λ path. IoResult.err [];
  modified_secs = λ path. IoResult.err [];
  read_bytes = λ path. IoResult.err [];
}

abbrev packages : PackageBackend
packages = record { owner = λ path. none; verify = λ paths. [] }

abbrev pub collector : Stage1Collector
collector = record { fs = files; packages = packages; system = system; machine_id = codes "m" }

abbrev pub config : ClientConfig
config = record default_config { rate_limit_per_hour = 5 }

abbrev pub surroundings : Surroundings
surroundings = record {
  network = record {
    events_answer = λ sent events. Answer.ok (directive ∷ []);
    report_answer = λ sent token report. Answer.ok (record { id = codes "9"; url = none });
  };
  in_time = true;
  writable = true;
  user_declined = λ uid. [];
}

abbrev pub clock : Clock
clock = record {
  charged = 1000;
  answered = 1001;
  written = 1001;
  probed = 0;
  collected = 1;
  assembled = 2;
  verified = 3;
}

abbrev coredump : CoredumpRecord
coredump = record {
  fields = (codes "EXE", codes "/usr/bin/cat") ∷ (codes "FILENAME", codes "/var/core") ∷ [];
  message = [];
  timestamp = 1000;
  cursor = codes "c";
}

abbrev pub world : World
world = record {
  state = default_state;
  machine = record {
    files = codes "/var/core" ∷ [];
    deletes = λ f. true;
    declined = [];
    sent = [];
  };
  spool = [];
  pending = [];
}

abbrev pub reason : Exhausted → Text
reason e = codes "exhausted"

handle_coredump-Effects_example :
    Effects printed config surroundings clock coredump world (
      handle_coredump digest
        (codes "0.1")
        reason
        printed
        collector
        config
        surroundings
        clock
        coredump
        world)
    × (is_suppressed
          (handle_coredump digest
            (codes "0.1")
            reason
            printed
            collector
            config
            surroundings
            clock
            coredump
            world).0
        ≡ (leb 5
              (charge_rate_limit default_state
                (text_or (codes "unknown") (executable coredump))
                1000).0
            || has_declined surroundings default_state coredump
                (probe digest (codes "0.1") reason printed collector clock coredump)))
handle_coredump-Effects_example =
    handle_coredump-Effects digest (codes "0.1") reason printed collector config surroundings clock
      coredump world

abbrev spooled : Spool
spooled = (codes "1000-aa.json", 1 ∷ []) ∷ (codes "2000-aa.json", []) ∷ []

drain_spool_exact_example :
    (drain_list parsed (drain_spool parsed surroundings.network spooled world.machine).0).0 ≡ (
      if is_ok
        (send_events surroundings.network (events_of (drain_list parsed spooled).0) world.machine).0
      then []
      else (drain_list parsed spooled).0)
drain_spool_exact_example = drain_spool_exact parsed surroundings.network spooled world.machine
