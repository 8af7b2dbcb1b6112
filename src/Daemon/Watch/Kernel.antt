-- ===== src/Daemon/Watch/Kernel.antt =====
-- What the loop of crates/blankres-daemon/src/main.rs does about kernel oopses, and what a coredump in
-- between writes to the disk.
use blankres.Prelude.{
  Bool, true, false, Option, none, some, List, [], ◌∷◌, map, ◌≡◌, ◌∙◌, refl, ap, inl, inr,
  Bool-cases,
}
use blankres.Collect.Budget.{Exhausted}
use blankres.Collect.Stage1.{Stage1Collector}
use blankres.Daemon.Config.{ClientConfig}
use blankres.Daemon.Journal.{JournalEntry, message}
use blankres.Daemon.Watch.{
  KernelHost, Loop, kernel, coalesce, set_kernel_cursor, kernel_line, round, run_loop, finish,
  save_state,
}
use blankres.Daemon.Watch.Coalesce.{group}
use blankres.Report.Event.{CrashEvent}
use blankres.Text.{Text}
use blankres.Text.Bytes.{Bytes}
use blankres.Daemon.Watch.Cursor.{
  last_cursor, flush_some, flush_all, flush_some-keeps, flush_all-entry, flush_all-push,
}

module _ (sha256_hex : Bytes → Text) (client_version : Text) (show_exhausted : Exhausted → Text)
    (to_vec : CrashEvent → Option Bytes) (host : KernelHost) where
  module _ (c : Stage1Collector) (config : ClientConfig) (writable : Bool) where
    abbrev pub run_entries : List JournalEntry → Loop → Loop
    run_entries es l =
        run_loop sha256_hex client_version show_exhausted to_vec c config host writable false
          (map (λ e. kernel (some e)) es) l

    abbrev pub watch : List JournalEntry → Loop → Loop
    watch es l =
        finish sha256_hex client_version show_exhausted to_vec c config host writable false
          (run_entries es l)

    finish-world :
        (l : Loop)
        → (finish sha256_hex client_version show_exhausted to_vec c config host writable false
            l).world
          ≡ flush_some sha256_hex client_version show_exhausted to_vec host l.oops l.world
    unfolding finish save_state
    finish-world l = elim (Bool-cases writable) [ inl on ↦ rw on refl | inr off ↦ rw off refl ]

    finish-oops :
        (l : Loop)
        → (finish sha256_hex client_version show_exhausted to_vec c config host writable false
            l).oops
          ≡ none
    unfolding finish save_state
    finish-oops l = elim (Bool-cases writable) [ inl on ↦ rw on refl | inr off ↦ rw off refl ]

    finish-saved :
        (l : Loop)
        → writable ≡ true
        → (finish sha256_hex client_version show_exhausted to_vec c config host writable false
            l).saved
          ≡ (finish sha256_hex client_version show_exhausted to_vec c config host writable false
              l).world.state
    unfolding finish save_state
    finish-saved l on = rw on refl

    run-nil : (l : Loop) → run_entries [] l ≡ l
    unfolding run_loop
    run-nil l = refl

    watch-nil :
        (l : Loop)
        → (watch [] l).world
          ≡ flush_some sha256_hex client_version show_exhausted to_vec host l.oops l.world
    watch-nil l = rw (run-nil l) (finish-world l)

    -- The loop behind one entry.
    after_entry : JournalEntry → Loop → Loop
    after_entry e l =
        let (finished, next) = coalesce e.timestamp (message e) l.oops in
        record l {
          oops = next;
          world =
              set_kernel_cursor (some e.cursor)
                (flush_some sha256_hex client_version show_exhausted to_vec host finished l.world);
        }

    watch-cons :
        (e : JournalEntry) (es : List JournalEntry) (l : Loop)
        → watch (e ∷ es) l ≡ watch es (after_entry e l)
    unfolding run_loop round kernel_line after_entry
    watch-cons e es l = refl

    watch-world :
        (es : List JournalEntry) (l : Loop)
        → (watch es l).world
          ≡ set_kernel_cursor (last_cursor l.world.state.kernel_cursor es) (
              flush_all sha256_hex client_version show_exhausted to_vec host
                (group es l.oops)
                l.world)
    unfolding group after_entry
    watch-world [] l =
        rw (flush_all-push sha256_hex client_version show_exhausted to_vec host l.oops [] l.world) (
          watch-nil l
          ∙ flush_some-keeps sha256_hex client_version show_exhausted to_vec host l.oops l.world)
    watch-world (e ∷ es) l =
        let (finished, next) = coalesce e.timestamp (message e) l.oops in
        ap (λ x. x.world) (watch-cons e es l)
        ∙ watch-world es (after_entry e l)
        ∙ flush_all-entry sha256_hex client_version show_exhausted to_vec host e es finished
            (group es next) l.world

    -- Over entries of the kernel's journal, whatever the server answers, the loop and what follows it leave
    -- the world that reporting each group of lines in turn would leave, with the cursor of the last entry;
    -- no oops is left over, and the state on the disk is that of this world where it can be written.
    pub watch_refines :
        (es : List JournalEntry) (l : Loop)
        → ((watch es l).world
            ≡ set_kernel_cursor (last_cursor l.world.state.kernel_cursor es) (
                flush_all sha256_hex client_version show_exhausted to_vec host
                  (group es l.oops)
                  l.world))
          × ((watch es l).oops ≡ none)
          × (writable ≡ true → (watch es l).saved ≡ (watch es l).world.state)
    watch_refines es l =
        (watch-world es l, finish-oops (run_entries es l), λ on. finish-saved (run_entries es l) on)
