-- ===== src/Session/Disclosure/Shows.antt =====
-- What the disclosure of crates/blankres-session/src/lib.rs shows of a report, and what it does not.
use blankres.Prelude.{
  ltb, ℕ, Bool, false, ◌&&◌, ◌||◌, Option, none, some, List, [], ◌∷◌, ◌++◌, any, map, take, ◌≡◌,
  ◌∙◌, refl, ap, arith, ◌⊎◌, inl, inr, Option-cases, min,
}
use blankres.Report.Event.{CrashEvent, Frame, precise, coarse}
use blankres.Report.Payload.{Attachment, inline_text, file, Report, attachment_name}
use blankres.Session.Disclosure.{
  Catalog, Rows, frame_text, event_rows, command_rows, trace_rows, environment_row, withheld_rows,
  modified_row, skipped_row, attachment_row, report_rows, disclosure,
}
use blankres.Text.{Text, codes, join}
use blankres.Text.Bytes.{byte_len, slice_to}
use blankres.Text.Numbers.{to_decimal}

abbrev Test : Type 0
Test = Text × Text → Bool

any-append : (p : Test) (xs ys : Rows) → any p (xs ++ ys) ≡ (any p xs || any p ys)
any-append p [] ys = refl
any-append p (x ∷ xs) ys = ground (arith, any-append p xs ys)

any-sections :
    (p : Test) (c w e h m a s : Rows)
    → any p (c ++ (w ++ (e ++ (h ++ (m ++ (a ++ s))))))
      ≡ (any p c || (any p w || (any p e || (any p h || (any p m || (any p a || any p s))))))
any-sections p c w e h m a s =
    any-append p c _
    ∙ ap (λ x. any p c || x)
        (any-append p w _
          ∙ ap (λ x. any p w || x)
              (any-append p e _
                ∙ ap (λ x. any p e || x)
                    (any-append p h _
                      ∙ ap (λ x. any p h || x)
                          (any-append p m _ ∙ ap (λ x. any p m || x) (any-append p a s)))))

any-map :
    {A : Type 0} (p : Test) (f : A → Text × Text) (xs : List A)
    → any p (map f xs) ≡ any (λ x. p (f x)) xs
any-map p f [] = refl
any-map p f (x ∷ xs) = ap (λ b. p (f x) || b) (any-map p f xs)

-- The trace is shown up to its twelfth frame.
trace_rows-cut :
    (t : Catalog) (fs gs : List Frame) → take 12 fs ≡ take 12 gs → trace_rows t fs ≡ trace_rows t gs
trace_rows-cut t [] [] h = refl
trace_rows-cut t [] (g ∷ gs) h = cc
trace_rows-cut t (f ∷ fs) [] h = cc
trace_rows-cut t (f ∷ fs) (g ∷ gs) h =
    ap (λ l. (t.label_stack_trace, join (codes "\n") (map frame_text l)) ∷ []) h

-- The function of a frame, else its module, else two question marks.
abbrev shown_frame : Frame → Text
shown_frame f = elim f.function [
  | some name ↦ name
  | none ↦ elim f.module_name [ some name ↦ name | none ↦ codes "??" ]
]

frame_text-shown : (f : Frame) → frame_text f ≡ shown_frame f
frame_text-shown f = elim (Option-cases f.function) [
  | inl e ↦ elim (Option-cases f.module_name) [
    | inl e' ↦ rw (e, e') refl
    | inr (m, e') ↦ rw (e, e') refl
  ]
  | inr (n, e) ↦ rw e refl
]

map-shown : (fs : List Frame) → map frame_text fs ≡ map shown_frame fs
map-shown [] = refl
map-shown (f ∷ fs) = rw (frame_text-shown f, map-shown fs) refl

abbrev is_met : {A : Type 0} → Test → Text → List A → Text → Bool
is_met p label [] text = false
is_met p label (x ∷ xs) text = p (label, text)

module _ (human_size : ℕ → Text) (t : Catalog) where
  abbrev size_text : Attachment → Text
  size_text (inline_text name content) = t.bytes_of_text (byte_len content)
  size_text (file name path size compression) = t.memory_snapshot_of_size (human_size size)

  -- A test is met by what is to be shown of the event: the program, the signal by its name or else its
  -- number, the package with its version, the system, its kernel, and the cut hash with its precision.
  abbrev pub is_event_listed : (Text × Text → Bool) → CrashEvent → Text → Bool
  is_event_listed p e short =
      p (t.label_program, e.executable)
      || (p (
        t.label_signal,
        elim e.signal_name [
          | some name ↦ name
          | none ↦ elim e.signal [ some s ↦ to_decimal s | none ↦ t.unknown ]
        ],
      )
          || (p (
            t.label_package,
            elim e.package_info.name [
              | none ↦ t.not_from_a_package
              | some name ↦ elim e.package_info.version [
                | none ↦ name
                | some version ↦ name ++ (b' ' ∷ version)
              ]
            ],
          )
              || (p (t.label_operating_system, e.system.distro ++ (b' ' ∷ e.system.distro_version))
                  || (p (t.label_kernel, e.system.kernel_version)
                      || p (
                        t.label_signature,
                        short
                            ++ (codes " ("
                                ++ (elim e.signature.precision [
                                  | precise ↦ codes "Precise"
                                  | coarse ↦ codes "Coarse"
                                ]
                                    ++ codes ")")),
                      )))))

  -- A test is met by what is to be shown of a report besides its event: the arguments of the command,
  -- joined by spaces, the functions of the first twelve frames, by lines, each variable with its value,
  -- how many variables are withheld, each modified file with its package, each attachment with its size,
  -- and each collector that was skipped with the reason.
  abbrev pub is_listed : (Text × Text → Bool) → Report → Bool
  is_listed p r =
      is_met p t.label_command_line r.command_line (join (codes " ") r.command_line)
      || (is_met p t.label_stack_trace r.stack_trace
            (join (codes "\n") (map shown_frame (take 12 r.stack_trace)))
          || (any (λ e. p (t.label_environment_named e.0, e.1)) r.environment
              || ((ltb 0 r.environment_withheld
                    && p (t.label_environment, t.variables_withheld r.environment_withheld))
                  || (any (λ f. p (t.label_modified_file, t.from_package f.path f.package_name))
                        r.modified_files
                      || (any (λ a. p (t.label_attachment (attachment_name a), size_text a))
                            r.attachments
                          || any (λ s. p (t.label_not_collected s.name, s.reason)) r.skipped)))))

  any-command_rows :
      (p : Test) (argv : List Text)
      → any p (command_rows t argv) ≡ is_met p t.label_command_line argv (join (codes " ") argv)
  any-command_rows p [] = refl
  any-command_rows p (x ∷ xs) = ground arith

  any-trace_rows :
      (p : Test) (fs : List Frame)
      → any p (trace_rows t fs)
        ≡ is_met p t.label_stack_trace fs (join (codes "\n") (map shown_frame (take 12 fs)))
  any-trace_rows p [] = refl
  any-trace_rows p (f ∷ fs) = rw (map-shown (take 12 (f ∷ fs))) (ground arith)

  any-withheld_rows :
      (p : Test) (n : ℕ)
      → any p (withheld_rows t n) ≡ (ltb 0 n && p (t.label_environment, t.variables_withheld n))
  any-withheld_rows p n = ground arith

  any-report_rows :
      (p : Test) (report : Report) → any p (report_rows human_size t report) ≡ is_listed p report
  unfolding report_rows
  any-report_rows p report =
      any-sections p (command_rows t report.command_line) (trace_rows t report.stack_trace)
        (map (environment_row t) report.environment) (withheld_rows t report.environment_withheld)
        (map (modified_row t) report.modified_files)
        (map (attachment_row human_size t) report.attachments) (map (skipped_row t) report.skipped)
      ∙ rw (
        any-command_rows p report.command_line,
        any-trace_rows p report.stack_trace,
        any-map p (environment_row t) report.environment,
        any-withheld_rows p report.environment_withheld,
        any-map p (modified_row t) report.modified_files,
        any-map p (attachment_row human_size t) report.attachments,
        any-map p (skipped_row t) report.skipped,
      )

  any-event_rows :
      (p : Test) (e : CrashEvent) (short : Text)
      → any p (event_rows t e short) ≡ is_event_listed p e short
  any-event_rows p e short = ground (
    arith,
    Option-cases e.signal_name,
    Option-cases e.signal,
    Option-cases e.package_info.name,
    Option-cases e.package_info.version,
    e.signature.precision,
  )

  -- The disclosure shows exactly what it is to show. Where the cut of the hash at 16 bytes panics
  -- it gives nothing; otherwise a test is met by one of its rows exactly where it is met by the program,
  -- signal, package, system, kernel or signature of the event, the command line, the first twelve
  -- frames, a variable with its value, the number of those withheld, a modified file with its package, an
  -- attachment with its size, or a collector that was skipped with its reason.
  pub disclosure_shows :
      (report : Report) (p : Text × Text → Bool)
      → let hash = report.event.signature.hash in
        ((slice_to (min 16 (byte_len hash)) hash ≡ none) × (disclosure human_size t report ≡ none))
        ⊎ ((short : Text) × (rows : List (Text × Text)) × (slice_to (min 16 (byte_len hash)) hash
              ≡ some short)
            × (disclosure human_size t report ≡ some rows)
            × (any p rows ≡ (is_event_listed p report.event short || is_listed p report)))
  unfolding disclosure
  disclosure_shows report p =
      let hash = report.event.signature.hash in
      elim (Option-cases (slice_to (min 16 (byte_len hash)) hash)) [
        | inl panics ↦ inl (panics, rw panics refl)
        | inr (short, cut) ↦ inr (
          short,
          event_rows t report.event short ++ report_rows human_size t report,
          cut,
          rw cut refl,
          any-append p (event_rows t report.event short) (report_rows human_size t report)
              ∙ rw (any-event_rows p report.event short, any-report_rows p report) refl,
        )
      ]

  -- A report with another machine, architecture, time, count, client version, directive, user and trace.
  abbrev pub changed : Report → Text → Text → Text → Text → Option ℕ → ℕ → ℕ → List Frame → Report
  changed report machine_id architecture client_version directive_id uid timestamp crash_count fs =
      record report {
        event = record report.event {
          machine_id = machine_id;
          client_version = client_version;
          timestamp = timestamp;
          crash_count = crash_count;
          system = record report.event.system { architecture = architecture };
        };
        directive_id = directive_id;
        uid = uid;
        stack_trace = fs;
      }

  report_rows-changed :
      (report : Report) (machine_id architecture client_version directive_id : Text)
      (uid : Option ℕ) (timestamp crash_count : ℕ) (fs : List Frame)
      → take 12 fs ≡ take 12 report.stack_trace
      → report_rows human_size t report
        ≡ report_rows human_size t (
            changed report machine_id architecture client_version directive_id uid timestamp
              crash_count fs)
  unfolding report_rows
  report_rows-changed report machine_id architecture client_version directive_id uid timestamp
        crash_count fs h =
      rw (trace_rows-cut t fs report.stack_trace h) refl

  -- The disclosure of any report is the same for another identifier of the machine, another architecture,
  -- version of the client, directive, user, time or count, and for another stack trace with the same first
  -- twelve frames, whether or not there are more; all of these are in the report that is sent.
  pub disclosure_omits :
      (report : Report) (machine_id architecture client_version directive_id : Text)
      (uid : Option ℕ) (timestamp crash_count : ℕ) (fs : List Frame)
      → take 12 fs ≡ take 12 report.stack_trace
      → disclosure human_size t report
        ≡ disclosure human_size t (
            changed report machine_id architecture client_version directive_id uid timestamp
              crash_count fs)
  unfolding disclosure
  disclosure_omits report machine_id architecture client_version directive_id uid timestamp
        crash_count fs h =
      let hash = report.event.signature.hash in
      let same =
        report_rows-changed report machine_id architecture client_version directive_id uid timestamp
          crash_count fs h in
      elim (Option-cases (slice_to (min 16 (byte_len hash)) hash)) [
        | inl panics ↦ rw panics refl
        | inr (short, cut) ↦ rw cut (ap (λ x. some (event_rows t report.event short ++ x)) same)
      ]
