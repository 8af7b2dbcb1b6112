-- ===== src/Tests/Hooks.antt =====
-- crates/blankres-hooks at concrete inputs.
use blankres.Prelude.{
  true, ◌≢◌, ℕ, suc, length, ◌≤◌, ap, none, some, List, [], ◌∷◌, ◌++◌, ◌≡◌, refl, arith,
}
use blankres.Client.{Answer, Network, Machine}
use blankres.Hooks.{PackageFailure, Host, all_failures, newest_timestamp, parse_dpkg_log}
use blankres.Hooks.Log.{remaining}
use blankres.Hooks.Settles.{Answers, runs, hook_settles}
use blankres.Hooks.Again.{hook_reports_again}
use blankres.Report.Event.{CrashEvent, PayloadDirective}
use blankres.Tests.Data.{digest, directive, system}
use blankres.Text.{Text, codes, lines, text_eq, text_le}

abbrev one_each : List CrashEvent → List PayloadDirective
one_each [] = []
one_each (e ∷ es) = directive ∷ one_each es

one_each-length : (es : List CrashEvent) → length (one_each es) ≡ length es
one_each-length [] = refl
one_each-length (e ∷ es) = ap suc (one_each-length es)

abbrev net : Network
net = record {
  events_answer = λ sent events. Answer.ok (one_each events);
  report_answer = λ sent token report. Answer.ok (record { id = codes "9"; url = none });
}

net-Answers : Answers net
net-Answers sent events = (one_each events, refl, one_each-length events)

abbrev host : Host
host = record {
  packages = record { owner = λ path. none; verify = λ paths. [] };
  system = system;
  machine_id = codes "m";
  client_version = codes "0.1";
  is_state_writable = true;
}

abbrev machine : Machine
machine = record { files = []; deletes = λ f. true; declined = []; sent = [] }

abbrev twice : Text
twice = codes "d 1 status half-installed a b\nd 2 status half-installed a b\n"

abbrev failure : ℕ → PackageFailure
failure time = record {
  logged_at = codes "d " ++ time ∷ [];
  package_name = codes "a";
  state = codes "half-installed";
  operation = none;
}

twice_failures : all_failures none (lines twice) ≡ failure b'1' ∷ failure b'2' ∷ []
unfolding all_failures lines
twice_failures = refl

two_remain : remaining twice none ≤ 2
two_remain = rw twice_failures (omega arith)

hook_settles_example : parse_dpkg_log twice (runs digest net host 1 twice 2 none machine).0 ≡ []
hook_settles_example =
    hook_settles digest net host 1 twice 2 none machine net-Answers refl two_remain

hook_reports_again_example :
    (parse_dpkg_log twice none ≡ failure b'1' ∷ [])
    × (newest_timestamp (parse_dpkg_log twice none) ≡ some (codes "d 1"))
    × (parse_dpkg_log twice (newest_timestamp (parse_dpkg_log twice none)) ≢ [])
unfolding text_eq text_le
hook_reports_again_example =
    hook_reports_again twice none (failure b'1') (failure b'2' ∷ []) twice_failures refl refl
