-- ===== src/Daemon/Reporter/Outcomes.antt =====
-- What each outcome of `Reporter::handle_coredump` leaves behind: crates/blankres-daemon/src/reporter.rs.
use blankres.Prelude.{
  ℕ, true, false, Option, none, some, List, [], ◌∷◌, ◌≡◌, inl, inr, refl, leb, Bool-cases, ◌&&◌,
  ◌||◌, ◌∙◌, ap, not, if◌then◌else◌,
}
use blankres.Client.{post_events, log_request, file_exists}
use blankres.Collect.Budget.{Exhausted, Charged, Budget, stage1_budget, stage2_budget, check_time}
use blankres.Collect.Interfaces.{Filesystem, PackageBackend}
use blankres.Collect.Record.{CoredumpRecord, executable}
use blankres.Collect.Stage1.{Stage1Collector, collect_within, text_or}
use blankres.Collect.Stage2.{candidates, verify_checked, collect_without_verification, verify_into}
use blankres.Daemon.Config.{ClientConfig}
use blankres.Daemon.Reporter.{
  suppressed, Clock, Surroundings, World, unconfirmed_directive, ask_server, write_pending,
  conclude, report_event, probe, handle_coredump,
}
use blankres.Daemon.Reporter.Effects.{
  Effects, has_declined, is_suppressed, is_core_of, file_exists-drop_core, sent-drop_core,
  is_user_declined-has_declined,
}
use blankres.Daemon.State.{charge_rate_limit, note_signature}
use blankres.Report.Event.{CrashEvent, PayloadDirective, is_actionable}
use blankres.Report.Payload.{Report, PendingUpload}
use blankres.Text.{Text, codes}
use blankres.Text.Bytes.{Bytes}

module _ (show_exhausted : Exhausted → Text) where
  collect_without_verification-event :
      (fs : Filesystem) (event : CrashEvent) (id : Text) (r : CoredumpRecord) (now : ℕ) (b : Budget)
      → (collect_without_verification show_exhausted fs event id r now b).0.event ≡ event
  unfolding collect_without_verification
  collect_without_verification-event fs event id r now b = refl

  verify_checked-event :
      (p : PackageBackend) (report : Report) (files : List Text) (charged : Charged)
      → (verify_checked show_exhausted p report files charged).event ≡ report.event
  verify_checked-event p report files Charged.ok = refl
  verify_checked-event p report files (Charged.err e) = refl

  verify_into-event :
      (p : PackageBackend) (report : Report) (r : CoredumpRecord) (now : ℕ) (b : Budget)
      → (verify_into show_exhausted p report r now b).event ≡ report.event
  unfolding verify_into
  verify_into-event p report r now b =
      verify_checked-event p report (candidates show_exhausted r) (check_time b now)

module _ (sha256_hex : Bytes → Text) (client_version : Text) (show_exhausted : Exhausted → Text)
    (to_vec : CrashEvent → Option Bytes) where
  conclude-Effects :
      (c : Stage1Collector) (config : ClientConfig) (s : Surroundings) (clock : Clock)
      (r : CoredumpRecord) (event : CrashEvent) (report : Report) (budget : Budget)
      (d : Option PayloadDirective) (w : World) (w' : World)
      → report.event ≡ event
      → w'.machine ≡ log_request w.machine (post_events (event ∷ []))
      → w'.spool ≡ w.spool
      → w'.pending ≡ w.pending
      → Effects to_vec config s clock r w (
          conclude sha256_hex client_version show_exhausted to_vec c config s clock r event
            (report, budget)
            d
            w')
  unfolding conclude write_pending
  conclude-Effects c config s clock r event report budget none w w' e m sp pe =
      let verified = verify_into-event show_exhausted c.packages report r clock.verified budget in
      let p : PendingUpload = record {
        report = verify_into show_exhausted c.packages report r clock.verified budget;
        directive = unconfirmed_directive;
        written_at = clock.written;
        awaiting_directive = true;
      } in
      elim (Bool-cases s.writable) [
        | inl b ↦ rw b (
          p,
          rw (verified, e) refl,
          rw pe refl,
          refl,
          rw (verified, e) m,
          rw (verified, e, sp) refl,
        )
        | inr b ↦ rw b (refl, rw m refl, pe)
      ]
  conclude-Effects c config s clock r event report budget (some d) w w' e m sp pe =
      let verified = verify_into-event show_exhausted c.packages report r clock.verified budget in
      let p : PendingUpload = record {
        report = record (verify_into show_exhausted c.packages report r clock.verified budget) {
          directive_id = d.id;
        };
        directive = d;
        written_at = clock.written;
        awaiting_directive = false;
      } in
      elim (Bool-cases (is_actionable d clock.answered)) [
        | inl a ↦ elim (Bool-cases s.writable) [
          | inl b ↦
              rw (a, b) (p, rw (verified, e) refl, rw pe refl, refl, a, rw (verified, e) m, sp)
          | inr b ↦ rw (a, b) (refl, rw m refl, pe)
        ]
        | inr a ↦ rw a (
          event,
          refl,
          sent-drop_core config r w'.machine ∙ ap (λ k. k.sent) m,
          λ f.
              file_exists-drop_core config r w'.machine f
              ∙ ap
                  (λ k.
                    not (config.delete_declined_cores && is_core_of r f && k.deletes f)
                    && file_exists f k.files)
                  m,
          sp,
          pe,
        )
      ]

  pub handle_coredump_lem :
      (c : Stage1Collector) (config : ClientConfig) (s : Surroundings) (clock : Clock)
      (r : CoredumpRecord) (w : World)
      → let (seen, charged) =
          charge_rate_limit w.state (text_or (codes "unknown") (executable r)) clock.charged in
        let hash = probe sha256_hex client_version show_exhausted to_vec c clock r in
        let (count, noted) = note_signature charged hash in
        handle_coredump sha256_hex client_version show_exhausted to_vec c config s clock r w ≡ (
          if leb config.rate_limit_per_hour seen
          then (suppressed, record w { state = charged })
          else if has_declined s w.state r hash
          then (suppressed, record w { state = charged })
          else report_event sha256_hex client_version show_exhausted to_vec c config s clock r
              (collect_within sha256_hex client_version c r count
                (stage1_budget clock.probed)
                clock.collected)
              (record w { state = noted }))
  unfolding handle_coredump
  handle_coredump_lem c config s clock r w =
      let (seen, charged) =
        charge_rate_limit w.state (text_or (codes "unknown") (executable r)) clock.charged in
      let hash = probe sha256_hex client_version show_exhausted to_vec c clock r in
      rw
        (is_user_declined-has_declined sha256_hex client_version show_exhausted to_vec s charged r
          hash)
        (unfold charge_rate_limit in refl)

  report_event-Effects :
      (c : Stage1Collector) (config : ClientConfig) (s : Surroundings) (clock : Clock)
      (r : CoredumpRecord) (event : CrashEvent) (w w' : World)
      → w'.machine ≡ w.machine
      → w'.spool ≡ w.spool
      → w'.pending ≡ w.pending
      → Effects to_vec config s clock r w
          (report_event sha256_hex client_version show_exhausted to_vec c config s clock r event w')
  unfolding report_event ask_server
  report_event-Effects c config s clock r event w w' m sp pe =
      let collected =
        collect_without_verification show_exhausted c.fs event [] r clock.assembled
          (stage2_budget clock.assembled) in
      let asked = ask_server s.network s.in_time event w'.machine in
      conclude-Effects c config s clock r event collected.0 collected.1 asked.0 w
        (record w' { machine = asked.1 })
        (collect_without_verification-event show_exhausted c.fs event [] r clock.assembled
          (stage2_budget clock.assembled))
        (rw m refl) sp pe

  conclude-reports :
      (c : Stage1Collector) (config : ClientConfig) (s : Surroundings) (clock : Clock)
      (r : CoredumpRecord) (event : CrashEvent) (report : Report × Budget)
      (d : Option PayloadDirective) (w : World)
      → is_suppressed
          (conclude sha256_hex client_version show_exhausted to_vec c config s clock r event report
            d w).0
        ≡ false
  unfolding conclude write_pending
  conclude-reports c config s clock r event report none w = elim (Bool-cases s.writable) [
    | inl b ↦ rw b refl
    | inr b ↦ rw b refl
  ]
  conclude-reports c config s clock r event report (some d) w =
      elim (Bool-cases (is_actionable d clock.answered)) [
        | inl a ↦ elim (Bool-cases s.writable) [ inl b ↦ rw (a, b) refl | inr b ↦ rw (a, b) refl ]
        | inr a ↦ rw a refl
      ]

  report_event-reports :
      (c : Stage1Collector) (config : ClientConfig) (s : Surroundings) (clock : Clock)
      (r : CoredumpRecord) (event : CrashEvent) (w : World)
      → is_suppressed
          (report_event sha256_hex client_version show_exhausted to_vec c config s clock r event
            w).0
        ≡ false
  unfolding report_event
  report_event-reports c config s clock r event w =
      let (directive, m) = ask_server s.network s.in_time event w.machine in
      conclude-reports c config s clock r event
        (collect_without_verification show_exhausted c.fs event [] r clock.assembled
          (stage2_budget clock.assembled))
        directive (record w { machine = m })

  -- What the outcome of a coredump says is what has happened. A crash is suppressed exactly where it is
  -- over the rate limit, or the machine or its user has declined the signature; it has sent, written and
  -- deleted nothing. Where the outcome is that the core was dropped, one event was sent and nothing
  -- written, and of all files exactly the core is gone, if the configuration has such cores deleted and
  -- it could be. Where a report awaits consent, one event was sent, that report is new for review, in
  -- place of one with the same file, with a directive that was in force, or, where the server gave none
  -- in time, awaits one, with the event pushed to the spool; in both cases no file was deleted. An
  -- error deletes nothing either, and arises only where the report cannot be written.
  pub handle_coredump-Effects :
      (c : Stage1Collector) (config : ClientConfig) (s : Surroundings) (clock : Clock)
      (r : CoredumpRecord) (w : World)
      → let (seen, charged) =
          charge_rate_limit w.state (text_or (codes "unknown") (executable r)) clock.charged in
        let hash = probe sha256_hex client_version show_exhausted to_vec c clock r in
        let end =
          handle_coredump sha256_hex client_version show_exhausted to_vec c config s clock r w in
        Effects to_vec config s clock r w end
        × (is_suppressed end.0
            ≡ (leb config.rate_limit_per_hour seen || has_declined s w.state r hash))
  handle_coredump-Effects c config s clock r w =
      let (seen, charged) =
        charge_rate_limit w.state (text_or (codes "unknown") (executable r)) clock.charged in
      let hash = probe sha256_hex client_version show_exhausted to_vec c clock r in
      let (count, noted) = note_signature charged hash in
      let event =
        collect_within sha256_hex client_version c r count (stage1_budget clock.probed)
          clock.collected in
      let step = handle_coredump_lem c config s clock r w in
      elim (Bool-cases (leb config.rate_limit_per_hour seen)) [
        | inl over ↦ rw (step, over) ((refl, refl, refl), refl)
        | inr under ↦ elim (Bool-cases (has_declined s w.state r hash)) [
          | inl declined ↦ rw (step, under, declined) ((refl, refl, refl), refl)
          | inr open_case ↦
              rw (step, under, open_case)
                (
                  report_event-Effects c config s clock r event w (record w { state = noted }) refl
                      refl refl,
                  report_event-reports c config s clock r event (record w { state = noted }),
                )
        ]
      ]
