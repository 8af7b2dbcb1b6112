-- ===== src/Daemon/Watch/Cursor.antt =====
-- The cursor of the kernel's journal plays no part in the reporting of an oops, crates/blankres-daemon/src/main.rs.
use blankres.Prelude.{
  Bool, Option, none, some, List, [], ◌∷◌, ◌≡◌, ◌∙◌, refl, sym, ap, inl, inr, Bool-cases,
  if◌then◌else◌,
}
use blankres.Client.{Answer, Machine, send_events}
use blankres.Collect.Budget.{Exhausted}
use blankres.Daemon.Journal.{JournalEntry}
use blankres.Daemon.Oops.{to_event, OopsBuilder}
use blankres.Daemon.Reporter.{World}
use blankres.Daemon.State.{is_declined, note_signature}
use blankres.Daemon.Watch.{
  KernelHost, set_kernel_cursor, sent_or_spooled, deliver_oops, report_oops, flush_oops,
  flush_finished, oops_hash,
}
use blankres.Daemon.Watch.Coalesce.{push_finished}
use blankres.Report.Event.{CrashEvent, PayloadDirective}
use blankres.Text.{Text}
use blankres.Text.Bytes.{Bytes}

abbrev pub last_cursor : Option Text → List JournalEntry → Option Text
last_cursor c [] = c
last_cursor c (e ∷ es) = last_cursor (some e.cursor) es

module _ (sha256_hex : Bytes → Text) (client_version : Text) (show_exhausted : Exhausted → Text)
    (to_vec : CrashEvent → Option Bytes) (host : KernelHost) where
  abbrev pub flush : OopsBuilder → World → World
  flush = flush_oops sha256_hex client_version show_exhausted to_vec host

  abbrev pub flush_some : Option OopsBuilder → World → World
  flush_some = flush_finished sha256_hex client_version show_exhausted to_vec host

  -- Each oops in turn.
  abbrev pub flush_all : List OopsBuilder → World → World
  flush_all [] w = w
  flush_all (b ∷ bs) w = flush_all bs (flush b w)

  sent_or_spooled-cursor :
      (ready : Bool) (event : CrashEvent) (c : Option Text) (w : World)
      (a : Answer (List PayloadDirective) × Machine)
      → sent_or_spooled sha256_hex client_version show_exhausted to_vec ready event
          (set_kernel_cursor c w)
          a
        ≡ set_kernel_cursor c
            (sent_or_spooled sha256_hex client_version show_exhausted to_vec ready event w a)
  unfolding set_kernel_cursor
  sent_or_spooled-cursor ready event c w (Answer.ok ds, m) = refl
  sent_or_spooled-cursor ready event c w (Answer.err e, m) = refl

  abbrev deliver : CrashEvent → World → World
  deliver = deliver_oops sha256_hex client_version show_exhausted to_vec host

  machine-cursor : (c : Option Text) (w : World) → (set_kernel_cursor c w).machine ≡ w.machine
  unfolding set_kernel_cursor
  machine-cursor c w = refl

  deliver-cursor :
      (event : CrashEvent) (c : Option Text) (w : World)
      → deliver event (set_kernel_cursor c w) ≡ set_kernel_cursor c (deliver event w)
  unfolding deliver_oops
  deliver-cursor event c w = elim (Bool-cases host.client_ready) [
    | inl ready ↦
        rw (ready, machine-cursor c w)
          (sent_or_spooled-cursor host.spool_ready event c w
            (send_events host.network (event ∷ []) w.machine))
    | inr failed ↦ rw failed refl
  ]

  report_oops-cursor :
      (b : OopsBuilder) (c : Option Text) (w : World)
      → report_oops sha256_hex client_version show_exhausted to_vec host b (set_kernel_cursor c w)
        ≡ set_kernel_cursor c (report_oops sha256_hex client_version show_exhausted to_vec host b w)
  unfolding report_oops set_kernel_cursor note_signature
  report_oops-cursor b c w =
      let (count, noted) =
        note_signature w.state (oops_hash sha256_hex client_version show_exhausted to_vec host b) in
      deliver-cursor (to_event sha256_hex client_version b host.system host.machine_id count) c
        (record w { state = noted })

  is_declined-cursor :
      (c : Option Text) (w : World) (hash : Text)
      → is_declined (set_kernel_cursor c w).state hash ≡ is_declined w.state hash
  unfolding set_kernel_cursor is_declined
  is_declined-cursor c w hash = refl

  flush_oops_lem :
      (b : OopsBuilder) (w : World)
      → flush b w ≡ (
          if is_declined w.state (oops_hash sha256_hex client_version show_exhausted to_vec host b)
          then w
          else report_oops sha256_hex client_version show_exhausted to_vec host b w)
  unfolding flush_oops
  flush_oops_lem b w = refl

  flush-cursor :
      (b : OopsBuilder) (c : Option Text) (w : World)
      → flush b (set_kernel_cursor c w) ≡ set_kernel_cursor c (flush b w)
  flush-cursor b c w =
      let hash = oops_hash sha256_hex client_version show_exhausted to_vec host b in
      rw (flush_oops_lem b (set_kernel_cursor c w), flush_oops_lem b w, is_declined-cursor c w hash)
        (elim (Bool-cases (is_declined w.state hash)) [
          | inl declined ↦ rw declined refl
          | inr asked ↦ rw asked (report_oops-cursor b c w)
        ])

  flush_some-cursor :
      (o : Option OopsBuilder) (c : Option Text) (w : World)
      → flush_some o (set_kernel_cursor c w) ≡ set_kernel_cursor c (flush_some o w)
  flush_some-cursor none c w = refl
  flush_some-cursor (some b) c w = flush-cursor b c w

  flush_all-cursor :
      (bs : List OopsBuilder) (c : Option Text) (w : World)
      → flush_all bs (set_kernel_cursor c w) ≡ set_kernel_cursor c (flush_all bs w)
  flush_all-cursor [] c w = refl
  flush_all-cursor (b ∷ bs) c w =
      ap (flush_all bs) (flush-cursor b c w) ∙ flush_all-cursor bs c (flush b w)

  pub flush_all-push :
      (o : Option OopsBuilder) (bs : List OopsBuilder) (w : World)
      → flush_all (push_finished o bs) w ≡ flush_all bs (flush_some o w)
  flush_all-push none bs w = refl
  flush_all-push (some b) bs w = refl

  cursor-cursor :
      (a b : Option Text) (w : World)
      → set_kernel_cursor b (set_kernel_cursor a w) ≡ set_kernel_cursor b w
  unfolding set_kernel_cursor
  cursor-cursor a b w = refl

  cursor-set : (c : Option Text) (w : World) → (set_kernel_cursor c w).state.kernel_cursor ≡ c
  unfolding set_kernel_cursor
  cursor-set c w = refl

  cursor-same : (w : World) → set_kernel_cursor w.state.kernel_cursor w ≡ w
  unfolding set_kernel_cursor
  cursor-same w = refl

  pub flush_some-keeps :
      (o : Option OopsBuilder) (w : World)
      → flush_some o w ≡ set_kernel_cursor w.state.kernel_cursor (flush_some o w)
  flush_some-keeps o w =
      ap (flush_some o) (sym (cursor-same w)) ∙ flush_some-cursor o w.state.kernel_cursor w

  -- What one entry leaves to the entries behind it.
  pub flush_all-entry :
      (e : JournalEntry) (es : List JournalEntry) (finished : Option OopsBuilder)
      (bs : List OopsBuilder) (w : World)
      → set_kernel_cursor
          (last_cursor
            (set_kernel_cursor (some e.cursor) (flush_some finished w)).state.kernel_cursor
            es)
          (flush_all bs (set_kernel_cursor (some e.cursor) (flush_some finished w)))
        ≡ set_kernel_cursor
            (last_cursor (some e.cursor) es)
            (flush_all (push_finished finished bs) w)
  unfolding set_kernel_cursor
  flush_all-entry e es finished bs w =
      rw
        (
          cursor-set (some e.cursor) (flush_some finished w),
          flush_all-cursor bs (some e.cursor) (flush_some finished w),
          flush_all-push finished bs w,
        )
        (cursor-cursor (some e.cursor) (last_cursor (some e.cursor) es)
          (flush_all bs (flush_some finished w)))
