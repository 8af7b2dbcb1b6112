-- ===== src/Session/Disclosure.antt =====
-- crates/blankres-session/src/lib.rs, `disclosure` and `transfer_summary`: what the user sees of a report. The
-- texts of a language are a record of functions, and `human_size` prints a size.
pub mod Shows
use blankres.Prelude.{
  ℕ, ◌==◌, Option, none, some, List, [], ◌∷◌, ◌++◌, map, take, min, ltb, if◌then◌else◌,
}
use blankres.Report.Event.{CrashEvent, Frame, Precision, precise, coarse, PackageInfo}
use blankres.Report.Payload.{
  Attachment, inline_text, file, ModifiedFile, SkippedCollector, Report, PendingUpload,
  attachment_name, transfer_size, pending_actionable,
}
use blankres.Text.{Text, codes, join}
use blankres.Text.Bytes.{byte_len, slice_to}
use blankres.Text.Numbers.{to_decimal}

-- What the session uses of `Catalog`.
pub record Catalog : Type 0 where
  pub label_program : Text
  pub label_signal : Text
  pub unknown : Text
  pub label_package : Text
  pub not_from_a_package : Text
  pub label_operating_system : Text
  pub label_kernel : Text
  pub label_signature : Text
  pub label_command_line : Text
  pub label_stack_trace : Text
  pub label_environment_named : Text → Text
  pub label_environment : Text
  pub variables_withheld : ℕ → Text
  pub label_modified_file : Text
  pub from_package : Text → Text → Text
  pub bytes_of_text : ℕ → Text
  pub memory_snapshot_of_size : Text → Text
  pub label_attachment : Text → Text
  pub label_not_collected : Text → Text
  pub no_attachments : Text
  pub includes_size : Text → Text

abbrev pub Rows : Type 0
Rows = List (Text × Text)

abbrev signal_text : Catalog → Option Text → Option ℕ → Text
signal_text t (some name) signal = name
signal_text t none (some s) = to_decimal s
signal_text t none none = t.unknown

abbrev package_text : Catalog → Option Text → Option Text → Text
package_text t (some name) (some version) = name ++ (b' ' ∷ version)
package_text t (some name) none = name
package_text t none version = t.not_from_a_package

-- `{:?}`
abbrev precision_text : Precision → Text
precision_text precise = codes "Precise"
precision_text coarse = codes "Coarse"

-- The rows that every report has, by the cut of the hash.
abbrev pub event_rows : Catalog → CrashEvent → Text → Rows
event_rows t event short =
    (t.label_program, event.executable)
    ∷ (t.label_signal, signal_text t event.signal_name event.signal)
    ∷ (t.label_package, package_text t event.package_info.name event.package_info.version)
    ∷ (t.label_operating_system, event.system.distro ++ (b' ' ∷ event.system.distro_version))
    ∷ (t.label_kernel, event.system.kernel_version)
    ∷ (
      t.label_signature,
      short ++ (codes " (" ++ (precision_text event.signature.precision ++ codes ")")),
    )
    ∷ []

abbrev pub command_rows : Catalog → List Text → Rows
command_rows t [] = []
command_rows t (arg ∷ args) = (t.label_command_line, join (codes " ") (arg ∷ args)) ∷ []

abbrev frame_name : Option Text → Option Text → Text
frame_name (some function) m = function
frame_name none (some m) = m
frame_name none none = codes "??"

abbrev frame_text : Frame → Text
frame_text f = frame_name f.function f.module_name

abbrev pub trace_rows : Catalog → List Frame → Rows
trace_rows t [] = []
trace_rows t (f ∷ fs) =
    (t.label_stack_trace, join (codes "\n") (map frame_text (take 12 (f ∷ fs)))) ∷ []

abbrev pub environment_row : Catalog → Text × Text → Text × Text
environment_row t (name, value) = (t.label_environment_named name, value)

abbrev pub withheld_rows : Catalog → ℕ → Rows
withheld_rows t n = if ltb 0 n then (t.label_environment, t.variables_withheld n) ∷ [] else []

abbrev pub modified_row : Catalog → ModifiedFile → Text × Text
modified_row t f = (t.label_modified_file, t.from_package f.path f.package_name)

abbrev pub skipped_row : Catalog → SkippedCollector → Text × Text
skipped_row t s = (t.label_not_collected s.name, s.reason)

module _ (human_size : ℕ → Text) (t : Catalog) where
  abbrev attachment_text : Attachment → Text
  attachment_text (inline_text name content) = t.bytes_of_text (byte_len content)
  attachment_text (file name path size compression) = t.memory_snapshot_of_size (human_size size)

  abbrev pub attachment_row : Attachment → Text × Text
  attachment_row a = (t.label_attachment (attachment_name a), attachment_text a)

  -- The rows behind those of the event.
  unfoldable pub report_rows : Report → Rows
  unfolding join byte_len
  report_rows report =
      command_rows t report.command_line
      ++ (trace_rows t report.stack_trace
          ++ (map (environment_row t) report.environment
              ++ (withheld_rows t report.environment_withheld
                  ++ (map (modified_row t) report.modified_files
                      ++ (map attachment_row report.attachments
                          ++ map (skipped_row t) report.skipped)))))

  abbrev disclosed : Report → Option Text → Option Rows
  disclosed report none = none
  disclosed report (some short) = some (event_rows t report.event short ++ report_rows report)

  -- `ReportSession::disclosure`; `none` where the cut of the hash panics.
  unfoldable pub disclosure : Report → Option Rows
  unfolding report_rows slice_to byte_len to_decimal
  disclosure report =
      let hash = report.event.signature.hash in
      disclosed report (slice_to (min 16 (byte_len hash)) hash)

  -- `ReportSession::transfer_summary`
  unfoldable pub transfer_summary : Report → Text
  unfolding transfer_size
  transfer_summary report =
      if transfer_size report == 0
      then t.no_attachments
      else t.includes_size (human_size (transfer_size report))
