-- ===== src/Daemon/Reporter/Effects.antt =====
-- What an outcome of `Reporter::handle_coredump` promises: crates/blankres-daemon/src/reporter.rs.
use blankres.Prelude.{
  true, false, Option, none, some, [], ◌∷◌, ◌≡◌, inl, inr, Option-cases, ◌++◌, ◌&&◌, ◌||◌, not, any,
  filter, arith, Bool,
}
use blankres.Client.{Machine, post_events, log_request, file_exists}
use blankres.Collect.Budget.{Exhausted}
use blankres.Collect.Record.{CoredumpRecord, core_path, uid}
use blankres.Daemon.Config.{ClientConfig}
use blankres.Daemon.Reporter.{
  Outcome, suppressed, reported_core_dropped, awaiting_consent, spooled_awaiting_consent, io_error,
  Clock, Surroundings, World, drop_core, is_same_file, is_user_declined,
}
use blankres.Daemon.Spool.{push}
use blankres.Daemon.State.{State, is_declined}
use blankres.Report.Event.{CrashEvent, is_actionable}
use blankres.Report.Payload.{PendingUpload}
use blankres.Session.{declined_contains}
use blankres.Session.Consent.{file_exists-remove_file}
use blankres.Text.{Text, text_eq}
use blankres.Text.Bytes.{Bytes}
use blankres.TextMap.{lookup}

-- Is the file the core of the record?
abbrev pub is_core_of : CoredumpRecord → Text → Bool
is_core_of r f = elim (core_path r) [ none ↦ false | some path ↦ text_eq f path ]

-- Has the user, or the machine, declined the signature?
abbrev pub has_declined : Surroundings → State → CoredumpRecord → Text → Bool
has_declined s state r hash =
    elim (lookup hash state.signatures) [ none ↦ false | some entry ↦ entry.declined ]
    || any (λ d. text_eq d hash) (s.user_declined (elim (uid r) [ none ↦ 0 | some user ↦ user ]))

abbrev pub is_suppressed : Outcome → Bool
is_suppressed suppressed = true
is_suppressed _ = false

pub file_exists-drop_core :
    (config : ClientConfig) (r : CoredumpRecord) (m : Machine) (f : Text)
    → file_exists f (drop_core config r m).files ≡ (
        not (config.delete_declined_cores && is_core_of r f && m.deletes f)
        && file_exists f m.files)
unfolding drop_core
file_exists-drop_core config r m f = elim (Option-cases (core_path r)) [
  | inl e ↦ ground (arith, e)
  | inr (path, e) ↦ ground (arith, e, file_exists-remove_file m.deletes path f m.files)
]

pub sent-drop_core :
    (config : ClientConfig) (r : CoredumpRecord) (m : Machine)
    → (drop_core config r m).sent ≡ m.sent
unfolding drop_core
sent-drop_core config r m = ground arith

-- The effects of an outcome on the machine, the spool and the pending reports.
abbrev pub Effects :
    (CrashEvent → Option Bytes)
    → ClientConfig
    → Surroundings
    → Clock
    → CoredumpRecord
    → World
    → Outcome × World
    → Type 0
Effects to_vec config s clock r w (suppressed, w') =
    (w'.machine ≡ w.machine) × (w'.spool ≡ w.spool) × (w'.pending ≡ w.pending)
Effects to_vec config s clock r w (reported_core_dropped h, w') =
    (event : CrashEvent) × (event.signature.hash ≡ h)
    × (w'.machine.sent ≡ w.machine.sent ++ post_events (event ∷ []) ∷ [])
    × ((f : Text)
        → file_exists f w'.machine.files ≡ (
            not (config.delete_declined_cores && is_core_of r f && w.machine.deletes f)
            && file_exists f w.machine.files))
    × (w'.spool ≡ w.spool)
    × (w'.pending ≡ w.pending)
Effects to_vec config s clock r w (awaiting_consent h, w') =
    (p : PendingUpload) × (p.report.event.signature.hash ≡ h)
    × (w'.pending ≡ p ∷ filter (λ q. not (is_same_file q p)) w.pending)
    × (p.awaiting_directive ≡ false)
    × (is_actionable p.directive clock.answered ≡ true)
    × (w'.machine ≡ log_request w.machine (post_events (p.report.event ∷ [])))
    × (w'.spool ≡ w.spool)
Effects to_vec config s clock r w (spooled_awaiting_consent h, w') =
    (p : PendingUpload) × (p.report.event.signature.hash ≡ h)
    × (w'.pending ≡ p ∷ filter (λ q. not (is_same_file q p)) w.pending)
    × (p.awaiting_directive ≡ true)
    × (w'.machine ≡ log_request w.machine (post_events (p.report.event ∷ [])))
    × (w'.spool ≡ (push to_vec w.spool p.report.event).1)
Effects to_vec config s clock r w (io_error, w') =
    (s.writable ≡ false) × (w'.machine.files ≡ w.machine.files) × (w'.pending ≡ w.pending)

module _ (sha256_hex : Bytes → Text) (client_version : Text) (show_exhausted : Exhausted → Text)
    (to_vec : CrashEvent → Option Bytes) where
  pub is_user_declined-has_declined :
      (s : Surroundings) (state : State) (r : CoredumpRecord) (hash : Text)
      → is_user_declined sha256_hex client_version show_exhausted to_vec s state r hash
        ≡ has_declined s state r hash
  unfolding is_user_declined is_declined declined_contains
  is_user_declined-has_declined s state r hash =
      ground (arith, Option-cases (lookup hash state.signatures), Option-cases (uid r))
