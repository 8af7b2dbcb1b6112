-- ===== src/Collect/Stage2/Sections.antt =====
-- The attachments of crates/blankres-collect/src/stage2.rs: what is missing is said to be missing.
use blankres.Prelude.{
  ℕ, ◌+◌, true, ◌&&◌, Option, none, some, [], ◌≡◌, ◌∙◌, arith, count, one_if, count-concat,
}
use blankres.Collect.Budget.{Budget, Exhausted, Charged, charge}
use blankres.Collect.Interfaces.{IoResult, ok, err, Filesystem}
use blankres.Collect.Record.{CoredumpRecord, core_path, proc_maps, proc_status}
use blankres.Collect.Stage2.{
  Collected, attach_core, attach_section, collect_sections, attach_charged, attach_core_of,
}
use blankres.Report.Event.{is_some}
use blankres.Report.Payload.{attachment_name, core_dump_attachment}
use blankres.Text.{Text, codes, text_eq}
use blankres.Text.Bytes.{byte_len}

-- How often a collector's name stands among the attachments and among the skipped ones.
abbrev pub mentions : Text → Collected → ℕ
mentions name c =
    count (λ a. text_eq (attachment_name a) name) c.attachments
    + count (λ s. text_eq s.name name) c.skipped

mentions-core :
    (k : Text) (fs : Filesystem) (path : Option Text) (c : Collected)
    → mentions k (attach_core fs path c)
      ≡ mentions k c + one_if (is_some path && text_eq core_dump_attachment k)
unfolding attach_core attachment_name
mentions-core k fs none c = omega arith
mentions-core k fs (some path) c = go (fs.metadata_len path)
  where
    go :
        (m : IoResult ℕ)
        → mentions k (attach_core_of c path m)
          ≡ mentions k c + one_if (true && text_eq core_dump_attachment k)
    go (ok size) = rw count-concat (omega arith)
    go (err e) = rw count-concat (omega arith)

module _ (show_exhausted : Exhausted → Text) where
  mentions-section :
      (k : Text) (now : ℕ) (name : Text) (content : Option Text) (c : Collected)
      → mentions k (attach_section show_exhausted now name content c)
        ≡ mentions k c + one_if (is_some content && text_eq name k)
  unfolding attach_section attachment_name
  mentions-section k now name none c = omega arith
  mentions-section k now name (some content) c = go (charge c.budget now (byte_len content))
    where
      go :
          (m : Charged × Budget)
          → mentions k (attach_charged show_exhausted c name content m)
            ≡ mentions k c + one_if (true && text_eq name k)
      go (Charged.ok, b) = rw count-concat (omega arith)
      go (Charged.err e, b) = rw count-concat (omega arith)

  mentions-sections :
      (k : Text) (fs : Filesystem) (r : CoredumpRecord) (now : ℕ) (budget : Budget)
      → mentions k (collect_sections show_exhausted fs r now budget)
        ≡ one_if (is_some (core_path r) && text_eq core_dump_attachment k)
          + one_if (is_some (proc_maps r) && text_eq (codes "proc-maps") k)
          + one_if (is_some (proc_status r) && text_eq (codes "proc-status") k)
  unfolding collect_sections
  mentions-sections k fs r now budget =
      let start : Collected = record { attachments = []; skipped = []; budget = budget } in
      let with_core = attach_core fs (core_path r) start in
      let with_maps =
        attach_section show_exhausted now (codes "proc-maps") (proc_maps r) with_core in
      mentions-section k now (codes "proc-status") (proc_status r) with_maps
      ∙ rw (mentions-section k now (codes "proc-maps") (proc_maps r) with_core)
          (rw (mentions-core k fs (core_path r) start) (unfold count in omega arith))

  -- Nothing is dropped in silence: each of the core dump, the memory map and the process status that
  -- the journal record carries stands in the report exactly once, attached or named as skipped, and
  -- one that the record lacks does not stand there.
  pub sections_accounted :
      (fs : Filesystem) (r : CoredumpRecord) (now : ℕ) (budget : Budget)
      → (mentions (codes "core-dump") (collect_sections show_exhausted fs r now budget)
          ≡ one_if (is_some (core_path r)))
        × (mentions (codes "proc-maps") (collect_sections show_exhausted fs r now budget)
            ≡ one_if (is_some (proc_maps r)))
        × (mentions (codes "proc-status") (collect_sections show_exhausted fs r now budget)
            ≡ one_if (is_some (proc_status r)))
  unfolding text_eq
  sections_accounted fs r now budget = (
    mentions-sections (codes "core-dump") fs r now budget
        ∙ ground (arith, is_some (core_path r), is_some (proc_maps r), is_some (proc_status r)),
    mentions-sections (codes "proc-maps") fs r now budget
        ∙ ground (arith, is_some (core_path r), is_some (proc_maps r), is_some (proc_status r)),
    mentions-sections (codes "proc-status") fs r now budget
        ∙ ground (arith, is_some (core_path r), is_some (proc_maps r), is_some (proc_status r)),
  )
