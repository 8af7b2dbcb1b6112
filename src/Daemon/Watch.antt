-- ===== src/Daemon/Watch.antt =====
-- crates/blankres-daemon/src/main.rs: the loop of the daemon over the two journals, one entry at a time. The
-- order in which `select!` takes what is ready is the list of wakes; what it logs is left out.
pub mod Coalesce
pub mod Cursor
pub mod Kernel
pub mod OptIn
pub mod Lost
pub mod Flush
use blankres.Prelude.{ℕ, Bool, true, false, not, Option, none, some, List, [], ◌∷◌, if◌then◌else◌}
use blankres.Client.{Answer, Network, Machine, send_events}
use blankres.Collect.Budget.{Exhausted}
use blankres.Collect.Stage1.{Stage1Collector}
use blankres.Daemon.Config.{ClientConfig}
use blankres.Daemon.Drain.{drain_spool}
use blankres.Daemon.Journal.{JournalEntry, is_coredump, message, to_coredump_record}
use blankres.Daemon.Oops.{OopsBuilder, new_oops, push_line, accepts, starts_oops, to_event}
use blankres.Daemon.Reporter.{Clock, Surroundings, World, Outcome, handle_coredump}
use blankres.Daemon.Spool.{Spool, push}
use blankres.Daemon.State.{State, is_declined, note_signature, salt}
use blankres.Report.Event.{CrashEvent, PayloadDirective, SystemInfo}
use blankres.Text.{Text}
use blankres.Text.Bytes.{Bytes}

-- What `flush_oops` is given and meets: whether a client can be made, and the spool opened.
pub record KernelHost : Type 0 where
  pub system : SystemInfo
  pub machine_id : Text
  pub network : Network
  pub client_ready : Bool
  pub spool_ready : Bool

-- The variables of the loop, and the state as it was last written.
pub record Loop : Type 0 where
  pub oops : Option OopsBuilder
  pub world : World
  pub saved : State

-- What `select!` wakes for: a journal that ended gives `none`.
pub data Wake : Type 0 where
  shutdown : Wake
  coredump : Surroundings → Clock → Option JournalEntry → Wake
  kernel : Option JournalEntry → Wake

-- The `match` on the oops so far: the one to flush, and the one kept.
unfoldable pub coalesce : ℕ → Text → Option OopsBuilder → Option OopsBuilder × Option OopsBuilder
unfolding accepts push_line starts_oops
coalesce now line none = if starts_oops line then (none, some (new_oops now line)) else (none, none)
coalesce now line (some b) =
    if accepts b now
    then (none, some (push_line b line))
    else if starts_oops line
    then (some b, some (new_oops now line))
    else (some b, none)

unfoldable pub set_kernel_cursor : Option Text → World → World
set_kernel_cursor c w = record w { state = record w.state { kernel_cursor = c } }

unfoldable pub set_coredump_cursor : Text → World → World
set_coredump_cursor c w = record w { state = record w.state { coredump_cursor = some c } }

unfoldable pub save_state : Bool → Loop → Loop
save_state writable l = if writable then record l { saved = l.world.state } else l

module _ (sha256_hex : Bytes → Text) (client_version : Text) (show_exhausted : Exhausted → Text)
    (to_vec : CrashEvent → Option Bytes) where
  abbrev pub sent_or_spooled :
      Bool → CrashEvent → World → Answer (List PayloadDirective) × Machine → World
  sent_or_spooled ready event w (Answer.ok ds, m) = record w { machine = m }
  sent_or_spooled ready event w (Answer.err c, m) = record w {
    machine = m;
    spool = if ready then (push to_vec w.spool event).1 else w.spool;
  }

  abbrev pub oops_hash : KernelHost → OopsBuilder → Text
  oops_hash host b =
      (to_event sha256_hex client_version b host.system host.machine_id 0).signature.hash

  -- `flush_oops`, from the making of the client on.
  unfoldable pub deliver_oops : KernelHost → CrashEvent → World → World
  unfolding send_events push
  deliver_oops host event w =
      if not host.client_ready
      then w
      else sent_or_spooled host.spool_ready event w
          (send_events host.network (event ∷ []) w.machine)

  -- `flush_oops`, where the signature is not declined.
  unfoldable pub report_oops : KernelHost → OopsBuilder → World → World
  unfolding note_signature deliver_oops to_event
  report_oops host b w =
      let (count, noted) = note_signature w.state (oops_hash host b) in
      deliver_oops host (to_event sha256_hex client_version b host.system host.machine_id count)
        (record w { state = noted })

  unfoldable pub flush_oops : KernelHost → OopsBuilder → World → World
  unfolding is_declined report_oops to_event
  flush_oops host b w = if is_declined w.state (oops_hash host b) then w else report_oops host b w

  abbrev pub flush_finished : KernelHost → Option OopsBuilder → World → World
  flush_finished host none w = w
  flush_finished host (some b) w = flush_oops host b w

  -- The branch of the kernel's journal.
  unfoldable pub kernel_line : KernelHost → JournalEntry → Loop → Loop
  unfolding coalesce message flush_oops set_kernel_cursor
  kernel_line host e l =
      let (finished, next) = coalesce e.timestamp (message e) l.oops in
      record l {
        oops = next;
        world = set_kernel_cursor (some e.cursor) (flush_finished host finished l.world);
      }

  -- The branch of the coredumps' journal, for an entry of a coredump.
  unfoldable pub coredump_entry :
      Stage1Collector → ClientConfig → Bool → Surroundings → Clock → JournalEntry → Loop → Loop
  unfolding handle_coredump to_coredump_record set_coredump_cursor save_state
  coredump_entry c config writable s clock e l =
      let (outcome, w) =
        handle_coredump sha256_hex client_version show_exhausted to_vec c config s clock
          (to_coredump_record e) l.world in
      save_state writable (record l { world = set_coredump_cursor e.cursor w })

  module _ (c : Stage1Collector) (config : ClientConfig) (host : KernelHost)
      (writable once : Bool) where
    -- One round of the loop, with whether another follows.
    unfoldable pub round : Wake → Loop → Bool × Loop
    unfolding is_coredump coredump_entry kernel_line
    round shutdown l = (false, l)
    round (coredump s clock none) l = (false, l)
    round (coredump s clock (some e)) l =
        if not (is_coredump e)
        then (true, l)
        else (not once, coredump_entry c config writable s clock e l)
    round (kernel none) l = (true, l)
    round (kernel (some e)) l = (not once, kernel_line host e l)

    unfoldable pub run_loop : List Wake → Loop → Loop
    unfolding round
    run_loop [] l = l
    run_loop (wake ∷ wakes) l =
        let (again, l') = round wake l in let rest = run_loop wakes l' in if again then rest else l'

    -- What follows the loop.
    unfoldable pub finish : Loop → Loop
    unfolding flush_oops save_state
    finish l =
        save_state writable (record l { oops = none; world = flush_finished host l.oops l.world })

  -- `main` from the state that was loaded to its end, where the client, the spool and the journals can be
  -- opened; `fresh` is what `random_hex` gives, and a kernel's journal that is not watched wakes no round.
  unfoldable pub run_daemon :
      (Bytes → Option CrashEvent)
      → Stage1Collector
      → ClientConfig
      → KernelHost
      → Bool
      → Bool
      → Text
      → List Wake
      → World
      → Loop
  unfolding salt save_state drain_spool run_loop finish
  run_daemon from_slice c config host writable once fresh wakes w =
      if not config.telemetry_enabled
      then record { oops = none; world = w; saved = w.state }
      else (let salted = record w { state = (salt w.state fresh).1 } in
          let (spool, machine) = drain_spool from_slice host.network salted.spool salted.machine in
          let kept = if writable then salted.state else w.state in
          finish c config host writable once (
            run_loop c config host writable once wakes (record {
              oops = none;
              world = record salted { spool = spool; machine = machine };
              saved = kept;
            })))
