-- ===== src/Report/Payload.antt =====
-- Stage 2, crates/blankres-report/src/report.rs: the full payload and the pending upload.
use blankres.Prelude.{
  ℕ, ◌+◌, ◌%◌, ◌^◌, Bool, ◌||◌, Option, none, some, List, [], ◌∷◌, ◌++◌, map, min, if◌then◌else◌,
  ◌==◌,
}
use blankres.Report.Event.{CrashEvent, PayloadDirective, Frame, is_actionable}
use blankres.Text.{Text, codes, text_eq, drop_while}
use blankres.Text.Bytes.{byte_len, slice_to}
use blankres.Text.Numbers.{to_decimal}

-- A path is the text that names it.
pub data Attachment : Type 0 where
  inline_text : Text → Text → Attachment
  file : Text → Text → ℕ → Option Text → Attachment

-- `Attachment::name`
unfoldable pub attachment_name : Attachment → Text
attachment_name (inline_text name content) = name
attachment_name (file name path size compression) = name

-- `Attachment::transfer_size`
unfoldable pub attachment_size : Attachment → ℕ
attachment_size (inline_text name content) = byte_len content
attachment_size (file name path size compression) = size

pub record ModifiedFile : Type 0 where
  pub path : Text
  pub package_name : Text

pub record SkippedCollector : Type 0 where
  pub name : Text
  pub reason : Text

pub record Report : Type 0 where
  pub event : CrashEvent
  pub directive_id : Text
  pub command_line : List Text
  pub environment : List (Text × Text)
  pub environment_withheld : ℕ
  pub uid : Option ℕ
  pub stack_trace : List Frame
  pub modified_files : List ModifiedFile
  pub attachments : List Attachment
  pub skipped : List SkippedCollector

-- `sum()` of `u64`s, as a release build computes it.
unfoldable pub sum_sizes : List Attachment → ℕ
unfolding attachment_size
sum_sizes [] = 0
sum_sizes (a ∷ rest) = (attachment_size a + sum_sizes rest) % 2 ^ 64

-- `Report::transfer_size`
unfoldable pub transfer_size : Report → ℕ
unfolding sum_sizes
transfer_size r = sum_sizes r.attachments

abbrev pub core_dump_attachment : Text
core_dump_attachment = codes "core-dump"

unfoldable pub find_named : Text → List Attachment → Option Attachment
unfolding attachment_name text_eq
find_named name [] = none
find_named name (a ∷ rest) =
    if text_eq (attachment_name a) name then some a else find_named name rest

-- `Report::core_dump`
unfoldable pub core_dump : Report → Option Attachment
unfolding find_named
core_dump r = find_named core_dump_attachment r.attachments

pub record PendingUpload : Type 0 where
  pub report : Report
  pub directive : PayloadDirective
  pub written_at : ℕ
  pub awaiting_directive : Bool

-- `PendingUpload::is_actionable`
unfoldable pub pending_actionable : PendingUpload → ℕ → Bool
unfolding is_actionable
pending_actionable p now = p.awaiting_directive || is_actionable p.directive now

abbrev pub get_or_zero : Option ℕ → ℕ
get_or_zero none = 0
get_or_zero (some n) = n

abbrev slash_to_underscore : ℕ → ℕ
slash_to_underscore c = if c == b'/' then b'_' else c

abbrev pub file_name_with : Text → ℕ → Option Text → Option Text
file_name_with exe uid none = none
file_name_with exe uid (some short) =
    some (exe ++ (codes "." ++ (to_decimal uid ++ (codes "." ++ (short ++ codes ".report")))))

-- `PendingUpload::file_name`; `none` where the cut of the hash panics.
unfoldable pub file_name : PendingUpload → Option Text
unfolding drop_while slice_to byte_len to_decimal
file_name p =
    let exe = map slash_to_underscore (drop_while (λ c. c == b'/') p.report.event.executable) in
    let hash = p.report.event.signature.hash in
    file_name_with exe (get_or_zero p.report.uid) (slice_to (min 12 (byte_len hash)) hash)
