-- ===== src/Daemon/Reporter.antt =====
-- crates/blankres-daemon/src/reporter.rs: what the daemon does with one coredump. The readings of the
-- clocks, whether the server answers within the deadline and whether the pending report can be
-- written are arguments; log lines and the text of a suppression are left out.
pub mod Effects
pub mod Outcomes
use blankres.Prelude.{
  ℕ, Bool, true, false, not, ◌&&◌, ◌||◌, Option, none, some, List, [], ◌∷◌, ◌++◌, head?, leb,
  filter, ◌==◌, if◌then◌else◌,
}
use blankres.Client.{Answer, Network, Machine, send_events}
use blankres.Collect.Budget.{Exhausted, Budget, stage1_budget, stage2_budget}
use blankres.Collect.Interfaces.{Filesystem}
use blankres.Collect.Record.{CoredumpRecord, executable, core_path, uid}
use blankres.Collect.Stage1.{Stage1Collector, collect_within, text_or}
use blankres.Collect.Stage2.{collect_without_verification, verify_into}
use blankres.Daemon.Config.{ClientConfig}
use blankres.Daemon.Spool.{Spool, push}
use blankres.Daemon.State.{State, charge_rate_limit, is_declined, note_signature}
use blankres.Report.Event.{CrashEvent, PayloadDirective, is_actionable}
use blankres.Report.Payload.{Report, PendingUpload, get_or_zero, file_name}
use blankres.Session.{declined_contains, remove_file}
use blankres.Text.{Text, codes, text_eq}
use blankres.Text.Bytes.{Bytes}

pub data Outcome : Type 0 where
  suppressed : Outcome
  reported_core_dropped awaiting_consent spooled_awaiting_consent : Text → Outcome
  io_error : Outcome

-- The wall clock in seconds, and the monotonic one, at each reading.
pub record Clock : Type 0 where
  pub charged : ℕ
  pub answered : ℕ
  pub written : ℕ
  pub probed : ℕ
  pub collected : ℕ
  pub assembled : ℕ
  pub verified : ℕ

pub record Surroundings : Type 0 where
  pub network : Network
  pub in_time : Bool
  pub writable : Bool
  pub user_declined : ℕ → List Text

-- All that `handle_coredump` changes; `pending` are the reports written for review.
pub record World : Type 0 where
  pub state : State
  pub machine : Machine
  pub spool : Spool
  pub pending : List PendingUpload

abbrev pub unconfirmed_directive : PayloadDirective
unconfirmed_directive = record {
  id = [];
  need_payload = true;
  upload_token = none;
  max_bytes = none;
  expires_at = none;
}

abbrev first_directive : Answer (List PayloadDirective) → Option PayloadDirective
first_directive (Answer.err e) = none
first_directive (Answer.ok ds) = head? ds

-- `ask_server`
unfoldable pub ask_server :
    Network → Bool → CrashEvent → Machine → Option PayloadDirective × Machine
unfolding send_events
ask_server net in_time event m =
    let (answer, m') = send_events net (event ∷ []) m in
    (if in_time then first_directive answer else none, m')

abbrev remove_path : (Text → Bool) → Option Text → List Text → List Text
remove_path deletes none files = files
remove_path deletes (some path) files = remove_file deletes path files

-- `drop_core`; a core that cannot be deleted stays, and its error is only logged.
unfoldable pub drop_core : ClientConfig → CoredumpRecord → Machine → Machine
unfolding remove_file
drop_core config r m =
    if not config.delete_declined_cores
    then m
    else record m { files = remove_path m.deletes (core_path r) m.files }

abbrev is_same_name : Option Text → Option Text → Bool
is_same_name (some a) (some b) = text_eq a b
is_same_name _ _ = false

-- The same file of the same user's directory.
unfoldable pub is_same_file : PendingUpload → PendingUpload → Bool
unfolding file_name text_eq
is_same_file p q =
    (get_or_zero p.report.uid == get_or_zero q.report.uid)
    && is_same_name (file_name p) (file_name q)

-- A report is written over one of the same name.
abbrev pub put_pending : PendingUpload → List PendingUpload → List PendingUpload
put_pending p ps = p ∷ filter (λ q. not (is_same_file q p)) ps

-- `write_pending`, with the outcome where it succeeds.
unfoldable pub write_pending :
    Bool → Report → PayloadDirective → ℕ → Bool → Outcome → World → Outcome × World
unfolding is_same_file
write_pending writable report directive now awaiting outcome w =
    if not writable then (io_error, w) else (
      outcome,
      record w {
        pending =
            put_pending
              (record {
                report = report;
                directive = directive;
                written_at = now;
                awaiting_directive = awaiting;
              })
              w.pending;
      },
    )

module _ (sha256_hex : Bytes → Text) (client_version : Text) (show_exhausted : Exhausted → Text)
    (to_vec : CrashEvent → Option Bytes) where
  -- The `match` on the answer of the server.
  unfoldable pub conclude :
      Stage1Collector
      → ClientConfig
      → Surroundings
      → Clock
      → CoredumpRecord
      → CrashEvent
      → Report × Budget
      → Option PayloadDirective
      → World
      → Outcome × World
  unfolding write_pending drop_core verify_into push is_actionable
  conclude c config s clock r event (report, budget) none w =
      write_pending s.writable
        (verify_into show_exhausted c.packages report r clock.verified budget) unconfirmed_directive
        clock.written true (spooled_awaiting_consent event.signature.hash)
        (record w { spool = (push to_vec w.spool event).1 })
  conclude c config s clock r event (report, budget) (some d) w =
      if not (is_actionable d clock.answered)
      then (
        reported_core_dropped event.signature.hash,
        record w { machine = drop_core config r w.machine },
      )
      else write_pending s.writable
          (record (verify_into show_exhausted c.packages report r clock.verified budget) {
            directive_id = d.id;
          })
          d clock.written false (awaiting_consent event.signature.hash) w

  -- What follows once the crash is not suppressed.
  unfoldable pub report_event :
      Stage1Collector
      → ClientConfig
      → Surroundings
      → Clock
      → CoredumpRecord
      → CrashEvent
      → World
      → Outcome × World
  unfolding ask_server collect_without_verification stage2_budget conclude
  report_event c config s clock r event w =
      let (directive, m) = ask_server s.network s.in_time event w.machine in
      conclude c config s clock r event
        (collect_without_verification show_exhausted c.fs event [] r clock.assembled
          (stage2_budget clock.assembled))
        directive (record w { machine = m })

  -- The signature of the crash, by a collection that is thrown away.
  unfoldable pub probe : Stage1Collector → Clock → CoredumpRecord → Text
  unfolding collect_within stage1_budget
  probe c clock r =
      (collect_within sha256_hex client_version c r 0 (stage1_budget clock.probed)
        clock.probed).signature.hash

  unfoldable pub is_user_declined : Surroundings → State → CoredumpRecord → Text → Bool
  unfolding is_declined declined_contains uid
  is_user_declined s state r hash =
      is_declined state hash || declined_contains (s.user_declined (get_or_zero (uid r))) hash

  -- `Reporter::handle_coredump`
  unfoldable pub handle_coredump :
      Stage1Collector
      → ClientConfig
      → Surroundings
      → Clock
      → CoredumpRecord
      → World
      → Outcome × World
  unfolding charge_rate_limit probe is_user_declined note_signature collect_within report_event
      stage1_budget
  handle_coredump c config s clock r w =
      let (seen, charged) =
        charge_rate_limit w.state (text_or (codes "unknown") (executable r)) clock.charged in
      let hash = probe c clock r in
      let (count, noted) = note_signature charged hash in
      if leb config.rate_limit_per_hour seen
      then (suppressed, record w { state = charged })
      else if is_user_declined s charged r hash
      then (suppressed, record w { state = charged })
      else report_event c config s clock r
          (collect_within sha256_hex client_version c r count (stage1_budget clock.probed)
            clock.collected)
          (record w { state = noted })
