-- ===== src/Daemon/Watch/Lost.antt =====
-- An oops that is still being collected when the loop of crates/blankres-daemon/src/main.rs writes its state.
use blankres.Prelude.{
  ℕ, Bool, true, false, Option, none, some, [], ◌∷◌, ◌≡◌, ◌∙◌, refl, ap, inl, inr, Bool-cases, leb,
}
use blankres.Collect.Budget.{Exhausted, Budget, stage1_budget, stage2_budget}
use blankres.Collect.Record.{CoredumpRecord, executable}
use blankres.Collect.Stage1.{Stage1Collector, collect_within, text_or}
use blankres.Collect.Stage2.{collect_without_verification}
use blankres.Daemon.Config.{ClientConfig}
use blankres.Daemon.Journal.{JournalEntry, is_coredump, message, to_coredump_record}
use blankres.Daemon.Oops.{starts_oops, new_oops}
use blankres.Daemon.Reporter.{
  Clock, Surroundings, World, Outcome, conclude, report_event, write_pending, probe,
  handle_coredump,
}
use blankres.Daemon.Reporter.Effects.{has_declined}
use blankres.Daemon.Reporter.Outcomes.{handle_coredump_lem}
use blankres.Daemon.State.{State, charge_rate_limit, note_signature}
use blankres.Daemon.Watch.{
  KernelHost, Loop, kernel, coredump, coalesce, set_kernel_cursor, set_coredump_cursor, kernel_line,
  coredump_entry, round, run_loop, save_state,
}
use blankres.Report.Event.{CrashEvent, PayloadDirective, is_actionable}
use blankres.Report.Payload.{Report}
use blankres.Text.{Text, codes}
use blankres.Text.Bytes.{Bytes}

write_pending-state :
    (writable : Bool) (report : Report) (d : PayloadDirective) (now : ℕ) (awaiting : Bool)
    (o : Outcome) (w : World)
    → (write_pending writable report d now awaiting o w).1.state ≡ w.state
unfolding write_pending
write_pending-state writable report d now awaiting o w = elim (Bool-cases writable) [
  | inl on ↦ rw on refl
  | inr off ↦ rw off refl
]

charge_rate_limit-cursor :
    (s : State) (x : Text) (now : ℕ) → (charge_rate_limit s x now).1.kernel_cursor ≡ s.kernel_cursor
unfolding charge_rate_limit
charge_rate_limit-cursor s x now = refl

note_signature-cursor :
    (s : State) (hash : Text) → (note_signature s hash).1.kernel_cursor ≡ s.kernel_cursor
unfolding note_signature
note_signature-cursor s hash = refl

module _ (sha256_hex : Bytes → Text) (client_version : Text) (show_exhausted : Exhausted → Text)
    (to_vec : CrashEvent → Option Bytes) where
  conclude-state :
      (c : Stage1Collector) (config : ClientConfig) (s : Surroundings) (clock : Clock)
      (r : CoredumpRecord) (event : CrashEvent) (collected : Report × Budget)
      (d : Option PayloadDirective) (w : World)
      → (conclude sha256_hex client_version show_exhausted to_vec c config s clock r event collected
          d w).1.state
        ≡ w.state
  unfolding conclude
  conclude-state c config s clock r event (report, budget) none w =
      write_pending-state s.writable _ _ _ _ _ _
  conclude-state c config s clock r event (report, budget) (some d) w =
      elim (Bool-cases (is_actionable d clock.answered)) [
        | inl a ↦ rw a (write_pending-state s.writable _ _ _ _ _ _)
        | inr a ↦ rw a refl
      ]

  report_event-state :
      (c : Stage1Collector) (config : ClientConfig) (s : Surroundings) (clock : Clock)
      (r : CoredumpRecord) (event : CrashEvent) (w : World)
      → (report_event sha256_hex client_version show_exhausted to_vec c config s clock r event
          w).1.state
        ≡ w.state
  unfolding report_event
  report_event-state c config s clock r event w =
      conclude-state c config s clock r event
        (collect_without_verification show_exhausted c.fs event [] r clock.assembled
          (stage2_budget clock.assembled))
        _ _

  handle_coredump-cursor :
      (c : Stage1Collector) (config : ClientConfig) (s : Surroundings) (clock : Clock)
      (r : CoredumpRecord) (w : World)
      → (handle_coredump sha256_hex client_version show_exhausted to_vec c config s clock r
          w).1.state.kernel_cursor
        ≡ w.state.kernel_cursor
  handle_coredump-cursor c config s clock r w =
      let (seen, charged) =
        charge_rate_limit w.state (text_or (codes "unknown") (executable r)) clock.charged in
      let hash = probe sha256_hex client_version show_exhausted to_vec c clock r in
      let (count, noted) = note_signature charged hash in
      let event =
        collect_within sha256_hex client_version c r count (stage1_budget clock.probed)
          clock.collected in
      let step =
        handle_coredump_lem sha256_hex client_version show_exhausted to_vec c config s clock r w in
      let kept =
        charge_rate_limit-cursor w.state (text_or (codes "unknown") (executable r)) clock.charged in
      elim (Bool-cases (leb config.rate_limit_per_hour seen)) [
        | inl over ↦ rw (step, over) kept
        | inr under ↦ elim (Bool-cases (has_declined s w.state r hash)) [
          | inl declined ↦ rw (step, under, declined) kept
          | inr asked ↦
              rw (step, under, asked)
                (ap (λ x. x.kernel_cursor)
                    (report_event-state c config s clock r event (record w { state = noted }))
                  ∙ note_signature-cursor charged hash
                  ∙ kept)
        ]
      ]

  module _ (c : Stage1Collector) (config : ClientConfig) (host : KernelHost) (s : Surroundings)
      (clock : Clock) where
    kernel_line-starts :
        (e : JournalEntry) (l : Loop)
        → l.oops ≡ none
        → starts_oops (message e) ≡ true
        → kernel_line sha256_hex client_version show_exhausted to_vec host e l ≡ record l {
          oops = some (new_oops e.timestamp (message e));
          world = set_kernel_cursor (some e.cursor) l.world;
        }
    unfolding kernel_line coalesce
    kernel_line-starts e l free starts = rw (free, starts) refl

    run_loop-pair :
        (e d : JournalEntry) (l : Loop)
        → is_coredump d ≡ true
        → run_loop sha256_hex client_version show_exhausted to_vec c config host true false
            (kernel (some e) ∷ coredump s clock (some d) ∷ [])
            l
          ≡ coredump_entry sha256_hex client_version show_exhausted to_vec c config true s clock d
              (kernel_line sha256_hex client_version show_exhausted to_vec host e l)
    unfolding run_loop round
    run_loop-pair e d l dump = rw dump refl

    coredump_entry-saved :
        (d : JournalEntry) (l : Loop)
        → let after =
            coredump_entry sha256_hex client_version show_exhausted to_vec c config true s clock d
              l in
          (after.saved.kernel_cursor ≡ l.world.state.kernel_cursor) × (after.oops ≡ l.oops)
    unfolding coredump_entry set_coredump_cursor save_state
    coredump_entry-saved d l =
        (handle_coredump-cursor c config s clock (to_coredump_record d) l.world, refl)

    cursor-set :
        (a : Text) (w : World) → (set_kernel_cursor (some a) w).state.kernel_cursor ≡ some a
    unfolding set_kernel_cursor
    cursor-set a w = refl

    -- Where a line that starts an oops is followed by a coredump, with no oops before it, the state written to
    -- the disk has the cursor of that line already, while the oops is only in the memory of the loop and the
    -- line has changed nothing but that cursor in the world: nothing was sent or spooled for it.
    pub coredump_saves_past_oops :
        (e d : JournalEntry) (l : Loop)
        → l.oops ≡ none
        → starts_oops (message e) ≡ true
        → is_coredump d ≡ true
        → let lost =
            run_loop sha256_hex client_version show_exhausted to_vec c config host true false
              (kernel (some e) ∷ coredump s clock (some d) ∷ [])
              l in
          (lost.saved.kernel_cursor ≡ some e.cursor)
          × (lost.oops ≡ some (new_oops e.timestamp (message e)))
          × ((kernel_line sha256_hex client_version show_exhausted to_vec host e l).world
              ≡ set_kernel_cursor (some e.cursor) l.world)
    coredump_saves_past_oops e d l free starts dump =
        let line = kernel_line sha256_hex client_version show_exhausted to_vec host e l in
        let first = kernel_line-starts e l free starts in
        let pair = run_loop-pair e d l dump in
        let (saved, kept) = coredump_entry-saved d line in
        (
          ap (λ x. x.saved.kernel_cursor) pair
              ∙ saved
              ∙ ap (λ x. x.world.state.kernel_cursor) first
              ∙ cursor-set e.cursor l.world,
          ap (λ x. x.oops) pair ∙ kept ∙ ap (λ x. x.oops) first,
          ap (λ x. x.world) first,
        )
