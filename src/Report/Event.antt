-- ===== src/Report/Event.antt =====
-- Stage 1, crates/blankres-report/src/event.rs: the telemetry event and the server's directive;
-- the data types of signature.rs that the event embeds.
use blankres.Prelude.{
  ℕ, Bool, true, false, ◌&&◌, Option, none, some, List, ltb, if◌then◌else◌, ◌==◌,
}
use blankres.Text.{Text, codes}

pub data Precision : Type 0 where
  precise coarse : Precision

pub record Frame : Type 0 where
  pub function : Option Text
  pub module_name : Option Text
  pub module_offset : Option ℕ

pub record Signature : Type 0 where
  pub hash : Text
  pub precision : Precision
  pub frames : List Text

pub data ReportKind : Type 0 where
  native_crash kernel_oops package_failure : ReportKind

pub record PackageInfo : Type 0 where
  pub name : Option Text
  pub version : Option Text
  pub source : Option Text

abbrev pub no_package : PackageInfo
no_package = record { name = none; version = none; source = none }

pub record SystemInfo : Type 0 where
  pub distro : Text
  pub distro_version : Text
  pub architecture : Text
  pub kernel_version : Text

pub record CrashEvent : Type 0 where
  pub schema : ℕ
  pub signature : Signature
  pub kind : ReportKind
  pub timestamp : ℕ
  pub executable : Text
  pub signal : Option ℕ
  pub signal_name : Option Text
  pub package_info : PackageInfo
  pub system : SystemInfo
  pub machine_id : Text
  pub crash_count : ℕ
  pub client_version : Text
  pub core_available : Bool
  pub core_size : Option ℕ

abbrev pub schema_version : ℕ
schema_version = 1

pub record PayloadDirective : Type 0 where
  pub id : Text
  pub need_payload : Bool
  pub upload_token : Option Text
  pub max_bytes : Option ℕ
  pub expires_at : Option ℕ

unfoldable pub not_needed : Text → PayloadDirective
not_needed id = record {
  id = id;
  need_payload = false;
  upload_token = none;
  max_bytes = none;
  expires_at = none;
}

-- `Option::is_some`, and `is_none_or(|expiry| now < expiry)`.
abbrev pub is_some {ℓ} : {A : Type ℓ} → Option A → Bool
is_some none = false
is_some (some a) = true

abbrev pub unexpired : ℕ → Option ℕ → Bool
unexpired now none = true
unexpired now (some expiry) = ltb now expiry

-- `PayloadDirective::is_actionable`
unfoldable pub is_actionable : PayloadDirective → ℕ → Bool
is_actionable d now = d.need_payload && is_some d.upload_token && unexpired now d.expires_at

-- `signal_name` of lib.rs.
unfoldable pub signal_name : ℕ → Option Text
signal_name s =
    if s == 4
    then some (codes "SIGILL")
    else if s == 6
    then some (codes "SIGABRT")
    else if s == 7
    then some (codes "SIGBUS")
    else if s == 8
    then some (codes "SIGFPE")
    else if s == 11
    then some (codes "SIGSEGV")
    else if s == 31
    then some (codes "SIGSYS")
    else if s == 5
    then some (codes "SIGTRAP")
    else if s == 3
    then some (codes "SIGQUIT")
    else none
