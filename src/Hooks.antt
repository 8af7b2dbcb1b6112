-- ===== src/Hooks.antt =====
-- crates/blankres-hooks/src/lib.rs and main.rs: package operations that failed, read from dpkg's log behind
-- each run of apt. `terminal_log_tail` is of the same library.
pub mod Log
pub mod Settles
pub mod Again
use blankres.Prelude.{
  ◌||◌, ℕ, ◌-◌, ◌++◌, Bool, true, false, not, ◌&&◌, ◌==◌, Option, none, some, List, [], ◌∷◌, any,
  drop, length, map, if◌then◌else◌,
}
use blankres.Client.{Answer, Network, Machine, send_events}
use blankres.Collect.Interfaces.{PackageBackend}
use blankres.Report.Event.{
  CrashEvent, PayloadDirective, Frame, PackageInfo, SystemInfo, package_failure, schema_version,
}
use blankres.Report.Signature.{from_frames}
use blankres.Text.{Text, codes, text_eq, text_le, split, split_whitespace, lines, join}
use blankres.Text.Bytes.{Bytes}

pub record PackageFailure : Type 0 where
  pub logged_at : Text
  pub package_name : Text
  pub state : Text
  pub operation : Option Text

abbrev pub failure_states : List Text
failure_states =
    codes "half-configured" ∷ codes "half-installed" ∷ codes "triggers-awaited-failed" ∷ []

-- `package.split(':').next().unwrap_or(package)`
abbrev bare_name : Text → List Text → Text
bare_name name [] = name
bare_name name (w ∷ ws) = w

-- The comparison with `after`.
abbrev pub is_newer : Option Text → Text → Bool
is_newer none logged_at = true
is_newer (some after) logged_at = not (text_le logged_at after)

abbrev failure_at : Option Text → Text → Text → Text → Option PackageFailure
failure_at after logged_at state name =
    if not (is_newer after logged_at)
    then none
    else some (record {
      logged_at = logged_at;
      package_name = bare_name name (split (λ c. c == b':') name);
      state = state;
      operation = none;
    })

abbrev pub failure_of : Option Text → List Text → Option PackageFailure
failure_of after (date ∷ time ∷ kind ∷ state ∷ name ∷ more) =
    if not (text_eq kind (codes "status"))
    then none
    else if not (any (λ s. text_eq s state) failure_states)
    then none
    else failure_at after (date ++ b' ' ∷ time) state name
failure_of after _ = none

-- One round of the loop of `parse_dpkg_log`.
unfoldable pub line_failure : Option Text → Text → Option PackageFailure
unfolding text_eq text_le split split_whitespace
line_failure after line = failure_of after (split_whitespace line)

abbrev pub push_failure : Option PackageFailure → List PackageFailure → List PackageFailure
push_failure none fs = fs
push_failure (some f) fs = f ∷ fs

-- The list before `dedup_by`.
unfoldable pub all_failures : Option Text → List Text → List PackageFailure
unfolding line_failure
all_failures after [] = []
all_failures after (line ∷ rest) = push_failure (line_failure after line) (all_failures after rest)

abbrev pub is_same : PackageFailure → PackageFailure → Bool
is_same a b = text_eq a.package_name b.package_name && text_eq a.state b.state

-- `Vec::dedup_by`: an item like the last one kept goes.
unfoldable pub dedup_behind : PackageFailure → List PackageFailure → List PackageFailure
unfolding text_eq
dedup_behind last [] = []
dedup_behind last (f ∷ fs) =
    let skipped = dedup_behind last fs in
    let kept = dedup_behind f fs in if is_same f last then skipped else f ∷ kept

unfoldable pub dedup : List PackageFailure → List PackageFailure
unfolding dedup_behind
dedup [] = []
dedup (f ∷ fs) = f ∷ dedup_behind f fs

unfoldable pub parse_dpkg_log : Text → Option Text → List PackageFailure
unfolding lines all_failures dedup
parse_dpkg_log log after = dedup (all_failures after (lines log))

unfoldable pub terminal_log_tail : Text → ℕ → Text
unfolding lines join
terminal_log_tail log max_lines =
    let all = lines log in join (codes "\n") (drop (length all - max_lines) all)

-- `max` of the time stamps.
abbrev pub max_text : Text → Option Text → Option Text
max_text t none = some t
max_text t (some u) = some (if text_le t u then u else t)

unfoldable pub newest_timestamp : List PackageFailure → Option Text
unfolding text_le
newest_timestamp [] = none
newest_timestamp (f ∷ fs) = max_text f.logged_at (newest_timestamp fs)

abbrev plain_frame : Text → Frame
plain_frame name = record { function = some name; module_name = none; module_offset = none }

abbrev version_of : Option PackageInfo → Option Text
version_of none = none
version_of (some info) = info.version

-- What `main` has at hand when it builds the events, and whether its own state can be written.
pub record Host : Type 0 where
  pub packages : PackageBackend
  pub system : SystemInfo
  pub machine_id : Text
  pub client_version : Text
  pub is_state_writable : Bool

module _ (sha256_hex : Bytes → Text) where
  -- `PackageFailure::to_event`
  unfoldable pub to_event : PackageFailure → Option Text → Host → ℕ → ℕ → CrashEvent
  unfolding from_frames
  to_event f version host crash_count timestamp = record {
    schema = schema_version;
    signature =
        from_frames sha256_hex
          (plain_frame (codes "dpkg:" ++ f.state) ∷ plain_frame f.package_name ∷ []) none
          f.package_name;
    kind = package_failure;
    timestamp = timestamp;
    executable = codes "dpkg:" ++ f.package_name;
    signal = none;
    signal_name = none;
    package_info = record { name = some f.package_name; version = version; source = none };
    system = host.system;
    machine_id = host.machine_id;
    crash_count = crash_count;
    client_version = host.client_version;
    core_available = false;
    core_size = none;
  }

  unfoldable pub events_of : Host → ℕ → List PackageFailure → List CrashEvent
  unfolding to_event
  events_of host now failures =
      map
        (λ f.
          to_event f (version_of (host.packages.owner (codes "/usr/bin/" ++ f.package_name))) host 1
            now)
        failures

  abbrev pub after_send :
      Bool
      → List PackageFailure
      → Option Text
      → Answer (List PayloadDirective) × Machine
      → Option Text × Machine
  after_send writable failures last (Answer.err e, m) = (last, m)
  after_send writable failures last (Answer.ok ds, m) =
      (if writable then newest_timestamp failures else last, m)

  abbrev pub report_failures :
      Bool
      → Bool
      → Network
      → Host
      → ℕ
      → Option Text
      → Machine
      → List PackageFailure
      → Option Text × Machine
  report_failures dry_run client_ready net host now last m [] = (last, m)
  report_failures dry_run client_ready net host now last m (f ∷ fs) =
      if dry_run || not client_ready
      then (last, m)
      else after_send host.is_state_writable (f ∷ fs) last
          (send_events net (events_of host now (f ∷ fs)) m)

  -- `main` with the configuration and the log that it has read and its `last_reported`; `client_ready` is
  -- whether a client can be made. The time is that of the state as the next run reads it.
  unfoldable pub run_hook :
      Bool → Bool → Bool → Network → Host → ℕ → Text → Option Text → Machine → Option Text × Machine
  unfolding parse_dpkg_log newest_timestamp send_events events_of
  run_hook telemetry_enabled dry_run client_ready net host now log last m =
      if not telemetry_enabled
      then (last, m)
      else report_failures dry_run client_ready net host now last m (parse_dpkg_log log last)
