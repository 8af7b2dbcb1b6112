-- ===== src/Collect/Stage1.antt =====
-- crates/blankres-collect/src/stage1.rs: the telemetry event of one crash. The hasher and the version
-- of the client are parameters.
use blankres.Prelude.{ℕ, Bool, true, false, Option, none, some, List, [], ◌∷◌}
use blankres.Collect.Budget.{Budget, Charged, check_time}
use blankres.Collect.Interfaces.{IoResult, ok, err, Filesystem, PackageBackend}
use blankres.Collect.Record.{CoredumpRecord, field, executable, core_path, signal}
use blankres.Report.Event.{
  CrashEvent, Frame, Signature, PackageInfo, SystemInfo, no_package, native_crash, schema_version,
  signal_name,
}
use blankres.Report.Signature.{from_frames, coarse_signature, parse_journal_stack_trace}
use blankres.Text.{Text, codes}
use blankres.Text.Bytes.{Bytes}

pub record Stage1Collector : Type 0 where
  pub fs : Filesystem
  pub packages : PackageBackend
  pub system : SystemInfo
  pub machine_id : Text

abbrev pub text_or : Text → Option Text → Text
text_or d none = d
text_or d (some t) = t

abbrev package_or_default : Option PackageInfo → PackageInfo
package_or_default none = no_package
package_or_default (some p) = p

abbrev name_of_signal : Option ℕ → Option Text
name_of_signal none = none
name_of_signal (some s) = signal_name s

abbrev status_of_size : IoResult ℕ → Bool × Option ℕ
status_of_size (ok size) = (true, some size)
status_of_size (err e) = (false, none)

abbrev status_at : Filesystem → Text → Charged → Bool × Option ℕ
status_at fs path (Charged.err e) = (false, none)
status_at fs path Charged.ok = status_of_size (fs.metadata_len path)

abbrev status_of_path : Filesystem → Budget → ℕ → Option Text → Bool × Option ℕ
status_of_path fs b now none = (false, none)
status_of_path fs b now (some path) = status_at fs path (check_time b now)

-- `core_status`
unfoldable pub core_status : Filesystem → CoredumpRecord → Budget → ℕ → Bool × Option ℕ
unfolding check_time field
core_status fs r b now = status_of_path fs b now (core_path r)

module _ (sha256_hex : Bytes → Text) where
  abbrev signature_with : List Frame → Text → Option ℕ → PackageInfo → Signature
  signature_with [] exe s p = coarse_signature sha256_hex exe s p.version
  signature_with (f ∷ fs) exe s p = from_frames sha256_hex (f ∷ fs) s exe

  -- `Stage1Collector::signature`
  unfoldable pub crash_signature : CoredumpRecord → Text → Option ℕ → PackageInfo → Signature
  unfolding parse_journal_stack_trace
  crash_signature r exe s p = signature_with (parse_journal_stack_trace r.message) exe s p

  module _ (client_version : Text) where
    unfoldable pub collect_within : Stage1Collector → CoredumpRecord → ℕ → Budget → ℕ → CrashEvent
    unfolding crash_signature core_status signal field
    collect_within c r crash_count budget now =
        let exe = text_or (codes "unknown") (executable r) in
        let owner = package_or_default (c.packages.owner exe) in
        let status = core_status c.fs r budget now in
        record {
          schema = schema_version;
          signature = crash_signature r exe (signal r) owner;
          kind = native_crash;
          timestamp = r.timestamp;
          executable = exe;
          signal = signal r;
          signal_name = name_of_signal (signal r);
          package_info = owner;
          system = c.system;
          machine_id = c.machine_id;
          crash_count = crash_count;
          client_version = client_version;
          core_available = status.0;
          core_size = status.1;
        }
