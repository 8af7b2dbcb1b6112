-- ===== src/Collect/Stage2.antt =====
-- crates/blankres-collect/src/stage2.rs: the full payload of one crash.
pub mod Bounds
pub mod TailBounds
pub mod Sections
use blankres.Prelude.{
  ℕ, zero, suc, ◌+◌, ◌-◌, ◌*◌, Bool, true, false, not, Option, none, some, List, [], ◌∷◌, ◌++◌,
  filter, take, min, leb, if◌then◌else◌,
}
use blankres.Collect.Budget
use blankres.Collect.Budget.{Budget, Exhausted, Charged, charge, check_time}
use blankres.Collect.Interfaces.{IoResult, ok, err, Filesystem, PackageBackend}
use blankres.Collect.Record.{
  CoredumpRecord, field, executable, core_path, command_line, environ, proc_maps, proc_status, uid,
  mapped_files,
}
use blankres.Report.Event.{CrashEvent}
use blankres.Report.Payload.{
  Attachment, inline_text, file, SkippedCollector, Report, core_dump_attachment,
}
use blankres.Report.Redact.{filter_environ_block, scrub_cmdline_block}
use blankres.Report.Signature.{parse_journal_stack_trace}
use blankres.Text.{Text, codes, text_eq}
use blankres.Text.Bytes.{byte_len, slice_to, slice_from}
use blankres.TextMap.{TextMap}

abbrev pub max_inline_bytes : ℕ
max_inline_bytes = 256 * 1024

abbrev pub max_verified_files : ℕ
max_verified_files = 64

-- `while cut > 0 && !content.is_char_boundary(cut) { cut -= 1 }`, and the slice up to `cut`.
unfoldable pub cut_down : ℕ → Text → Text
unfolding slice_to
cut_down zero content = []
cut_down (suc cut) content = elim (slice_to (suc cut) content) [
  | some kept ↦ kept
  | none ↦ cut_down cut content
]

unfoldable pub truncate : Text → ℕ → Text
unfolding cut_down byte_len
truncate content limit =
    if leb (byte_len content) limit
    then content
    else cut_down limit content ++ codes "\n[truncated]"

-- `while start < len && !content.is_char_boundary(start) { start += 1 }`, and the slice from `start`;
-- the first number is `len - start`.
unfoldable pub cut_up : ℕ → ℕ → Text → Text
unfolding slice_from
cut_up zero start content = []
cut_up (suc left) start content = elim (slice_from start content) [
  | some kept ↦ kept
  | none ↦ cut_up left (start + 1) content
]

unfoldable pub tail : Text → ℕ → Text
unfolding cut_up byte_len
tail content limit =
    if leb (byte_len content) limit
    then content
    else codes "[truncated]\n" ++ cut_up limit (byte_len content - limit) content

-- The two lists that the collectors of a report push to, and the budget that they charge.
pub record Collected : Type 0 where
  pub attachments : List Attachment
  pub skipped : List SkippedCollector
  pub budget : Budget

abbrev push_attachment : Collected → Attachment → Collected
push_attachment c a = record c { attachments = c.attachments ++ a ∷ [] }

abbrev push_skipped : Collected → Text → Text → Collected
push_skipped c name reason = record c {
  skipped = c.skipped ++ (record { name = name; reason = reason } ∷ []);
}

abbrev attach_core_of : Collected → Text → IoResult ℕ → Collected
attach_core_of c path (ok size) =
    push_attachment c (file core_dump_attachment path size (some (codes "zstd")))
attach_core_of c path (err e) =
    push_skipped c core_dump_attachment (codes "core dump unavailable: " ++ e)

-- The block about the core dump.
unfoldable pub attach_core : Filesystem → Option Text → Collected → Collected
attach_core fs none c = c
attach_core fs (some path) c = attach_core_of c path (fs.metadata_len path)

-- How an `Exhausted` prints is a parameter: it shows a `Duration`.
module _ (show_exhausted : Exhausted → Text) where
  abbrev attach_charged : Collected → Text → Text → Charged × Budget → Collected
  attach_charged c name content (Charged.ok, b) =
      push_attachment (record c { budget = b })
        (inline_text name (truncate content max_inline_bytes))
  attach_charged c name content (Charged.err e, b) =
      push_skipped (record c { budget = b }) name (show_exhausted e)

  -- One round of the loop over `proc-maps` and `proc-status`.
  unfoldable pub attach_section : ℕ → Text → Option Text → Collected → Collected
  unfolding charge truncate byte_len
  attach_section now name none c = c
  attach_section now name (some content) c =
      attach_charged c name content (charge c.budget now (byte_len content))

  -- `attachments` and `skipped` of `collect_without_verification`.
  unfoldable pub collect_sections : Filesystem → CoredumpRecord → ℕ → Budget → Collected
  unfolding attach_core attach_section field
  collect_sections fs r now budget =
      let start : Collected = record { attachments = []; skipped = []; budget = budget } in
      let with_core = attach_core fs (core_path r) start in
      let with_maps = attach_section now (codes "proc-maps") (proc_maps r) with_core in
      attach_section now (codes "proc-status") (proc_status r) with_maps

  abbrev scrubbed : Option Text → List Text
  scrubbed none = []
  scrubbed (some block) = scrub_cmdline_block block

  abbrev filtered : Option Text → TextMap Text × ℕ
  filtered none = ([], 0)
  filtered (some block) = filter_environ_block block

  unfoldable pub collect_without_verification :
      Filesystem → CrashEvent → Text → CoredumpRecord → ℕ → Budget → Report × Budget
  unfolding collect_sections scrub_cmdline_block filter_environ_block parse_journal_stack_trace uid
      field
  collect_without_verification fs event directive_id r now budget =
      let c = collect_sections fs r now budget in
      let env = filtered (environ r) in
      (
        record {
          event = event;
          directive_id = directive_id;
          command_line = scrubbed (command_line r);
          environment = env.0;
          environment_withheld = env.1;
          uid = uid r;
          stack_trace = parse_journal_stack_trace r.message;
          modified_files = [];
          attachments = c.attachments;
          skipped = c.skipped;
        },
        c.budget,
      )

  -- The executable first, then the mapped files but it, at most 64 in all.
  abbrev executable_first : Option Text → List Text → List Text
  executable_first none files = files
  executable_first (some exe) files = exe ∷ filter (λ p. not (text_eq p exe)) files

  unfoldable pub candidates : CoredumpRecord → List Text
  unfolding mapped_files field text_eq
  candidates r = take max_verified_files (executable_first (executable r) (mapped_files r))

  abbrev pub verify_checked : PackageBackend → Report → List Text → Charged → Report
  verify_checked p report files Charged.ok = record report { modified_files = p.verify files }
  verify_checked p report files (Charged.err e) = record report {
    skipped =
        report.skipped
        ++ (record { name = codes "package-verification"; reason = show_exhausted e } ∷ []);
  }

  unfoldable pub verify_into : PackageBackend → Report → CoredumpRecord → ℕ → Budget → Report
  unfolding candidates check_time
  verify_into p report r now budget = verify_checked p report (candidates r) (check_time budget now)

  abbrev skip_log : Report → Text → Text → Report
  skip_log report name reason = record report {
    skipped = report.skipped ++ (record { name = name; reason = reason } ∷ []);
  }

  abbrev attach_read : Report → Text → IoResult Text → Report
  attach_read report name (ok content) = record report {
    attachments = report.attachments ++ inline_text name (tail content max_inline_bytes) ∷ [];
  }
  attach_read report name (err e) = skip_log report name (codes "unreadable: " ++ e)

  abbrev attach_within : Filesystem → Report → Text → Text → Charged × Budget → Report × Budget
  attach_within fs report name path (Charged.ok, b) =
      (attach_read report name (fs.read_to_string path), b)
  attach_within fs report name path (Charged.err e, b) =
      (skip_log report name (show_exhausted e), b)

  abbrev attach_sized :
      Filesystem → Report → Text → Text → ℕ → Budget → IoResult ℕ → Report × Budget
  attach_sized fs report name path now b (err e) =
      (skip_log report name (codes "unavailable: " ++ e), b)
  attach_sized fs report name path now b (ok size) =
      attach_within fs report name path (charge b now (min size max_inline_bytes))

  unfoldable pub attach_log : Filesystem → Report → Text → Text → ℕ → Budget → Report × Budget
  unfolding charge tail
  attach_log fs report name path now budget =
      attach_sized fs report name path now budget (fs.metadata_len path)
