-- ===== src/Daemon/Watch/OptIn.antt =====
-- The opt-in of crates/blankres-daemon/src/config.rs and main.rs.
use blankres.Prelude.{Bool, false, ◌||◌, Option, none, some, List, ◌≡◌, ◌∙◌, refl, ap, arith}
use blankres.Collect.Budget.{Exhausted}
use blankres.Collect.Interfaces.{IoResult}
use blankres.Collect.Stage1.{Stage1Collector}
use blankres.Daemon.Config.{ClientConfig, Env, load, override_config}
use blankres.Daemon.Reporter.{World}
use blankres.Daemon.Watch.{KernelHost, Wake, run_daemon}
use blankres.Report.Event.{CrashEvent}
use blankres.Text.{Text, codes, text_eq}
use blankres.Text.Bytes.{Bytes}

load-telemetry :
    (from_str : Text → Option ClientConfig) (env : Env) (content : Text)
    (file config : ClientConfig)
    → from_str content ≡ some file
    → load from_str env (IoResult.ok content) ≡ some config
    → config ≡ override_config env file
unfolding load
load-telemetry from_str env content file config e h = ground (arith, e, h)

-- What the variable of the environment says.
abbrev pub opts_in : Option Text → Bool
opts_in none = false
opts_in (some t) = text_eq t (codes "1")

override_config-opts_in :
    (env : Env) (file : ClientConfig)
    → (override_config env file).telemetry_enabled
      ≡ (file.telemetry_enabled || opts_in (env (codes "BLANKRES_TELEMETRY")))
unfolding override_config
override_config-opts_in env file = refl

-- Where neither the file nor the environment opts in, the daemon that runs with the configuration so loaded
-- leaves the world and the state on the disk as they were, whatever the journals would have held: it sends
-- nothing, also not what was spooled, and draws no salt.
pub run_daemon-opt_in :
    (sha256_hex : Bytes → Text) (client_version : Text) (show_exhausted : Exhausted → Text)
    (to_vec : CrashEvent → Option Bytes) (from_slice : Bytes → Option CrashEvent)
    (from_str : Text → Option ClientConfig) (env : Env) (content : Text)
    (file config : ClientConfig) (c : Stage1Collector) (host : KernelHost) (writable once : Bool)
    (fresh : Text) (wakes : List Wake) (w : World)
    → from_str content ≡ some file
    → file.telemetry_enabled ≡ false
    → opts_in (env (codes "BLANKRES_TELEMETRY")) ≡ false
    → load from_str env (IoResult.ok content) ≡ some config
    → let end =
        run_daemon sha256_hex client_version show_exhausted to_vec from_slice c config host writable
          once fresh wakes w in
      (end.world ≡ w) × (end.saved ≡ w.state)
unfolding run_daemon
run_daemon-opt_in sha256_hex client_version show_exhausted to_vec from_slice from_str env content
      file config c host writable once fresh wakes w e off unset h =
    let same = load-telemetry from_str env content file config e h in
    let gate : config.telemetry_enabled ≡ false =
      ap (λ x. x.telemetry_enabled) same
      ∙ override_config-opts_in env file
      ∙ rw (off, unset) refl in
    rw gate (refl, refl)
