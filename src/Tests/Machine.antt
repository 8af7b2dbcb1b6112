-- ===== src/Tests/Machine.antt =====
-- crates/blankres-collect/src/system.rs and the disclosure of crates/blankres-session/src/lib.rs at concrete
-- inputs, with one oops that is flushed.
use blankres.Prelude.{
  min, ◌||◌, ℕ, ◌+◌, ◌%◌, ◌^◌, Bool, true, false, none, some, List, [], ◌∷◌, ◌++◌, any, ◌≡◌, ◌⊎◌,
  refl, arith,
}
use blankres.Collect.System.{machine_input}
use blankres.Collect.System.MachineId.{machine_input_injective}
use blankres.Daemon.State.{is_declined, default_state}
use blankres.Daemon.State.Signatures.{count_of}
use blankres.Daemon.Watch.{flush_oops}
use blankres.Daemon.Watch.Flush.{is_answer, answer_to, event_of, Delivered, flush_oops_exact}
use blankres.Report.Event.{Frame, CrashEvent}
use blankres.Report.Payload.{Report}
use blankres.Daemon.Reporter.{World}
use blankres.Session.Disclosure.{Catalog, disclosure}
use blankres.Session.Disclosure.Shows.{
  is_event_listed, is_listed, changed, disclosure_shows, disclosure_omits,
}
use blankres.Tests.Daemon.{printed, world, reason}
use blankres.Tests.Data.{digest, crash_report}
use blankres.Tests.Watch.{kernel_host, oops_here}
use blankres.Text.{Text, codes, text_eq, trim}
use blankres.Text.Bytes.{byte_len, slice_to}

machine_input_injective_example :
    (codes "s" ≡ codes "s") × (trim (codes "ab\n") ≡ trim (codes "ab"))
unfolding machine_input trim
machine_input_injective_example =
    machine_input_injective (codes "ab\n") (codes "ab") (codes "s") (codes "s") (ground arith)
      (ground arith) (ground arith) (ground arith) refl

abbrev oops_after : World
oops_after = flush_oops digest (codes "0.1") reason printed kernel_host oops_here world

abbrev oops_hash : Text
oops_hash = (event_of digest (codes "0.1") reason printed kernel_host oops_here 0).signature.hash

abbrev oops_event : CrashEvent
oops_event =
    event_of digest (codes "0.1") reason printed kernel_host oops_here
      ((count_of default_state oops_hash + 1) % 2 ^ 32)

flush_oops_exact_example :
    ((is_declined default_state oops_hash ≡ true) × (oops_after ≡ world))
    ⊎ ((is_declined default_state oops_hash ≡ false)
        × (oops_event.signature.hash ≡ oops_hash)
        × (count_of oops_after.state oops_hash ≡ oops_event.crash_count)
        × Delivered digest
            (codes "0.1")
            reason
            printed
            kernel_host
            true
            (is_answer (answer_to digest (codes "0.1") reason printed kernel_host oops_event world))
            oops_event
            world
            oops_after)
flush_oops_exact_example =
    flush_oops_exact digest (codes "0.1") reason printed kernel_host oops_here world

abbrev english : Catalog
english = record {
  label_program = codes "Program";
  label_signal = codes "Signal";
  unknown = codes "unknown";
  label_package = codes "Package";
  not_from_a_package = codes "none";
  label_operating_system = codes "System";
  label_kernel = codes "Kernel";
  label_signature = codes "Signature";
  label_command_line = codes "Command";
  label_stack_trace = codes "Trace";
  label_environment_named = λ name. name;
  label_environment = codes "Environment";
  variables_withheld = λ n. codes "some";
  label_modified_file = codes "Modified";
  from_package = λ path name. path;
  bytes_of_text = λ n. codes "text";
  memory_snapshot_of_size = λ size. size;
  label_attachment = λ name. name;
  label_not_collected = λ name. name;
  no_attachments = codes "none";
  includes_size = λ size. size;
}

abbrev sized : ℕ → Text
sized n = codes "3 B"

abbrev is_core : Text × Text → Bool
is_core (label, text) = text_eq label (codes "core-dump")

disclosure_shows_example :
    let hash = crash_report.event.signature.hash in
    ((slice_to (min 16 (byte_len hash)) hash ≡ none)
      × (disclosure sized english crash_report ≡ none))
    ⊎ ((short : Text) × (rows : List (Text × Text)) × (slice_to (min 16 (byte_len hash)) hash
          ≡ some short)
        × (disclosure sized english crash_report ≡ some rows)
        × (any is_core rows ≡ (
            is_event_listed sized english is_core crash_report.event short
            || is_listed sized english is_core crash_report)))
disclosure_shows_example = disclosure_shows sized english crash_report is_core

abbrev named_frame : Frame
named_frame = record { function = some (codes "f"); module_name = none; module_offset = none }

abbrev twelve : List Frame
twelve =
    named_frame ∷ named_frame ∷ named_frame ∷ named_frame ∷ named_frame ∷ named_frame ∷ named_frame
    ∷ named_frame ∷ named_frame ∷ named_frame ∷ named_frame ∷ named_frame ∷ []

abbrev deep_report : Report
deep_report = record crash_report { stack_trace = twelve ++ named_frame ∷ [] }

disclosure_omits_example :
    disclosure sized english deep_report
    ≡ disclosure sized english (
        changed sized english deep_report
          (codes "m2")
          (codes "arm")
          (codes "9")
          (codes "8")
          none
          5
          6
          twelve)
disclosure_omits_example =
    disclosure_omits sized english deep_report (codes "m2") (codes "arm") (codes "9") (codes "8")
      none 5 6 twelve refl
