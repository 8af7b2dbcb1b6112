-- ===== src/Daemon/Watch/Flush.antt =====
-- What `flush_oops` of crates/blankres-daemon/src/main.rs does with one oops.
use blankres.Prelude.{
  ◌⊎◌, ℕ, ◌+◌, ◌%◌, ◌^◌, Bool, true, false, not, ◌||◌, Option, List, [], ◌∷◌, ◌++◌, ◌≡◌, ◌∙◌, refl,
  sym, ap, arith, inl, inr, Bool-cases, if◌then◌else◌,
}
use blankres.Client.{Answer, post_events, send_events, log_request}
use blankres.Collect.Budget.{Exhausted}
use blankres.Daemon.Oops.{OopsBuilder, to_event}
use blankres.Daemon.Reporter.{World}
use blankres.Daemon.Spool.{push}
use blankres.Daemon.State.{is_declined, note_signature}
use blankres.Daemon.State.Signatures.{count_of, count_of-note_signature}
use blankres.Daemon.Watch.{KernelHost, sent_or_spooled, deliver_oops, report_oops, flush_oops}
use blankres.Report.Event.{CrashEvent, PayloadDirective}
use blankres.Text.{Text}
use blankres.Text.Bytes.{Bytes}

abbrev pub is_answer : {A : Type 0} → Answer A → Bool
is_answer (Answer.ok a) = true
is_answer (Answer.err e) = false

module _ (sha256_hex : Bytes → Text) (client_version : Text) (show_exhausted : Exhausted → Text)
    (to_vec : CrashEvent → Option Bytes) (host : KernelHost) where
  -- The event of an oops that was counted so often.
  abbrev pub event_of : OopsBuilder → ℕ → CrashEvent
  event_of b count = to_event sha256_hex client_version b host.system host.machine_id count

  -- What a delivery leaves, by whether a client was made and whether the server answered.
  abbrev pub Delivered : Bool → Bool → CrashEvent → World → World → Type 0
  Delivered client_ready answered event w after =
      (after.machine.sent ≡ (
        if client_ready then w.machine.sent ++ post_events (event ∷ []) ∷ [] else w.machine.sent))
      × (after.spool ≡ (
          if not client_ready || answered || not host.spool_ready
          then w.spool
          else (push to_vec w.spool event).1))
      × (after.pending ≡ w.pending)
      × (after.machine.files ≡ w.machine.files)

  sent_or_spooled-Delivered :
      (event : CrashEvent) (w : World) (a : Answer (List PayloadDirective))
      → Delivered true (is_answer a) event w (
          sent_or_spooled sha256_hex client_version show_exhausted to_vec host.spool_ready event w
            (a, log_request w.machine (post_events (event ∷ []))))
  sent_or_spooled-Delivered event w (Answer.ok ds) = (refl, refl, refl, refl)
  sent_or_spooled-Delivered event w (Answer.err e) = (refl, ground arith, refl, refl)

  sent_or_spooled-state :
      (event : CrashEvent) (w : World) (a : Answer (List PayloadDirective))
      → (sent_or_spooled sha256_hex client_version show_exhausted to_vec host.spool_ready event w
          (a, log_request w.machine (post_events (event ∷ [])))).state
        ≡ w.state
  sent_or_spooled-state event w (Answer.ok ds) = refl
  sent_or_spooled-state event w (Answer.err e) = refl

  abbrev pub answer_to : CrashEvent → World → Answer (List PayloadDirective)
  answer_to event w = (send_events host.network (event ∷ []) w.machine).0

  send_events-log :
      (event : CrashEvent) (w : World)
      → send_events host.network (event ∷ []) w.machine
        ≡ (answer_to event w, log_request w.machine (post_events (event ∷ [])))
  unfolding send_events
  send_events-log event w = refl

  deliver_oops-Delivered :
      (event : CrashEvent) (w : World)
      → Delivered host.client_ready
          (is_answer (answer_to event w))
          event
          w
          (deliver_oops sha256_hex client_version show_exhausted to_vec host event w)
  unfolding deliver_oops
  deliver_oops-Delivered event w = elim (Bool-cases host.client_ready) [
    | inl ready ↦
        rw (ready, send_events-log event w) (sent_or_spooled-Delivered event w (answer_to event w))
    | inr failed ↦ rw failed (refl, refl, refl, refl)
  ]

  deliver_oops-state :
      (event : CrashEvent) (w : World)
      → (deliver_oops sha256_hex client_version show_exhausted to_vec host event w).state ≡ w.state
  unfolding deliver_oops
  deliver_oops-state event w = elim (Bool-cases host.client_ready) [
    | inl ready ↦
        rw (ready, send_events-log event w) (sent_or_spooled-state event w (answer_to event w))
    | inr failed ↦ rw failed refl
  ]

  flush_oops-declined :
      (b : OopsBuilder) (w : World)
      → is_declined w.state (event_of b 0).signature.hash ≡ true
      → flush_oops sha256_hex client_version show_exhausted to_vec host b w ≡ w
  unfolding flush_oops
  flush_oops-declined b w h = rw h refl

  counted : OopsBuilder → World → ℕ
  counted b w = (count_of w.state (event_of b 0).signature.hash + 1) % 2 ^ 32

  noticed : OopsBuilder → World → World
  noticed b w = record w { state = (note_signature w.state (event_of b 0).signature.hash).1 }

  flush_oops-asked :
      (b : OopsBuilder) (w : World)
      → is_declined w.state (event_of b 0).signature.hash ≡ false
      → flush_oops sha256_hex client_version show_exhausted to_vec host b w
        ≡ deliver_oops sha256_hex client_version show_exhausted to_vec host
            (event_of b (counted b w))
            (noticed b w)
  unfolding flush_oops report_oops counted noticed note_signature
  flush_oops-asked b w h = rw h refl

  event_of-hash :
      (b : OopsBuilder) (n : ℕ) → (event_of b n).signature.hash ≡ (event_of b 0).signature.hash
  unfolding to_event
  event_of-hash b n = refl

  event_of-count : (b : OopsBuilder) (n : ℕ) → (event_of b n).crash_count ≡ n
  unfolding to_event
  event_of-count b n = refl

  noticed-state :
      (b : OopsBuilder) (w : World)
      → count_of (noticed b w).state (event_of b 0).signature.hash ≡ counted b w
  unfolding noticed counted
  noticed-state b w = count_of-note_signature w.state (event_of b 0).signature.hash

  noticed-Delivered :
      (event : CrashEvent) (b : OopsBuilder) (w : World)
      → Delivered host.client_ready
          (is_answer (answer_to event w))
          event
          w
          (deliver_oops sha256_hex client_version show_exhausted to_vec host event (noticed b w))
  unfolding noticed
  noticed-Delivered event b w = deliver_oops-Delivered event (noticed b w)

  -- An oops with a declined signature changes nothing. Any other is counted for its signature, and its event
  -- has that count and the signature itself; the event is sent once where a client can be made, and pushed to
  -- the spool where it was sent, got no answer and the spool can be opened. No report is written for review, and
  -- no file is deleted.
  pub flush_oops_exact :
      (b : OopsBuilder) (w : World)
      → let hash = (event_of b 0).signature.hash in
        let event = event_of b ((count_of w.state hash + 1) % 2 ^ 32) in
        let after = flush_oops sha256_hex client_version show_exhausted to_vec host b w in
        ((is_declined w.state hash ≡ true) × (after ≡ w))
        ⊎ ((is_declined w.state hash ≡ false)
            × (event.signature.hash ≡ hash)
            × (count_of after.state hash ≡ event.crash_count)
            × Delivered host.client_ready (is_answer (answer_to event w)) event w after)
  unfolding counted
  flush_oops_exact b w =
      let hash = (event_of b 0).signature.hash in
      elim (Bool-cases (is_declined w.state hash)) [
        | inl declined ↦ inl (declined, flush_oops-declined b w declined)
        | inr asked ↦
            let event = event_of b (counted b w) in
            let step = flush_oops-asked b w asked in
            rw step (
              inr (
                asked,
                event_of-hash b (counted b w),
                ap (λ s. count_of s hash) (deliver_oops-state event (noticed b w))
                    ∙ noticed-state b w
                    ∙ sym (event_of-count b (counted b w)),
                noticed-Delivered event b w,
              ))
      ]
