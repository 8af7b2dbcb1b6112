-- ===== src/Server/Web.antt =====
-- crates/blankres-server/src/web.rs: the rows of the public dashboard. The print of a date is a
-- parameter, and so is the fixed text of the page around the rows.
pub mod Skeleton
pub mod Panics
use blankres.Prelude.{
  ℕ, ◌+◌, ◌-◌, ◌/◌, ◌^◌, Bool, Option, none, some, List, [], ◌∷◌, ◌++◌, take, min, ltb, leb, ◌==◌,
  if◌then◌else◌,
}
use blankres.Report.Event.{
  ReportKind, native_crash, kernel_oops, package_failure, signal_name, CrashEvent,
}
use blankres.Server.Db.{Db, EventRow, SignatureRow, find_signature}
use blankres.Text.{Text, codes, text_eq, concat}
use blankres.Text.Bytes.{byte_len, slice_to}
use blankres.Text.Numbers.{to_decimal}

abbrev pub recent_limit : ℕ
recent_limit = 50

-- `received_at` is its print and how many seconds ago it was, 0 where it lies ahead.
pub record Row : Type 0 where
  pub received_at : Text
  pub age : ℕ
  pub executable : Text
  pub package_name : Option Text
  pub package_version : Option Text
  pub signal : Option ℕ
  pub kind : Text
  pub distro : Text
  pub distro_version : Text
  pub architecture : Text
  pub signature : Text
  pub signature_events : ℕ
  pub payloads : ℕ

-- The column `kind`, as `record_event` writes it.
abbrev pub kind_name : ReportKind → Text
kind_name native_crash = codes "nativecrash"
kind_name kernel_oops = codes "kerneloops"
kind_name package_failure = codes "packagefailure"

abbrev row_of : (ℕ → Text × ℕ) → EventRow → SignatureRow → Row
row_of received e s = record {
  received_at = (received e.id).0;
  age = (received e.id).1;
  executable = e.event.executable;
  package_name = e.event.package_info.name;
  package_version = e.event.package_info.version;
  signal = e.event.signal;
  kind = kind_name e.event.kind;
  distro = e.event.system.distro;
  distro_version = e.event.system.distro_version;
  architecture = e.event.system.architecture;
  signature = e.event.signature.hash;
  signature_events = s.events;
  payloads = s.payloads;
}

abbrev joined : (ℕ → Text × ℕ) → EventRow → Option SignatureRow → List Row → List Row
joined received e none rows = rows
joined received e (some s) rows = row_of received e s ∷ rows

unfoldable pub join_rows : (ℕ → Text × ℕ) → List SignatureRow → List EventRow → List Row
unfolding find_signature
join_rows received signatures [] = []
join_rows received signatures (e ∷ events) =
    joined received e (find_signature e.event.signature.hash signatures)
      (join_rows received signatures events)

-- `recent`: the table of events has the newest first.
unfoldable pub recent : {M : Type 0} → (ℕ → Text × ℕ) → Db M → List Row
unfolding join_rows
recent received db = take recent_limit (join_rows received db.signatures db.events)

abbrev pub escaped : ℕ → Text
escaped c =
    if c == b'&'
    then codes "&amp;"
    else if c == b'<'
    then codes "&lt;"
    else if c == b'>'
    then codes "&gt;"
    else if c == b'"'
    then codes "&quot;"
    else if c == 39
    then codes "&#39;"
    else c ∷ []

-- `esc`
unfoldable pub esc : Text → Text
esc [] = []
esc (c ∷ s) = escaped c ++ esc s

unfoldable pub relative : ℕ → Text
unfolding to_decimal
relative seconds =
    if leb seconds 59
    then to_decimal seconds ++ codes "s ago"
    else if leb seconds 3599
    then to_decimal (seconds / 60) ++ codes "m ago"
    else if leb seconds 86399
    then to_decimal (seconds / 3600) ++ codes "h ago"
    else to_decimal (seconds / 86400) ++ codes "d ago"

-- The `u32` of the event, which the column holds as an `i32` of the same bits.
abbrev show_i32 : ℕ → Text
show_i32 n = if ltb n (2 ^ 31) then to_decimal n else b'-' ∷ to_decimal (2 ^ 32 - n)

abbrev named_signal : ℕ → Option Text → Text
named_signal number none = codes "signal " ++ show_i32 number
named_signal number (some name) = name

abbrev label_of : Option ℕ → Text
label_of none = codes "unknown"
label_of (some number) = named_signal number (signal_name number)

unfoldable pub signal_label : Option ℕ → Text → Text
unfolding text_eq signal_name to_decimal
signal_label signal kind =
    if text_eq kind (codes "kerneloops")
    then codes "kernel oops"
    else if text_eq kind (codes "packagefailure")
    then codes "package failure"
    else label_of signal

abbrev pub package_cell : Option Text → Option Text → Text
package_cell (some name) (some version) = concat (esc name ∷ codes " " ∷ esc version ∷ [])
package_cell (some name) none = esc name
package_cell none version = codes "<span class=\"metric\">not packaged</span>"

abbrev pub payload_cell : ℕ → Text
payload_cell payloads =
    if ltb 0 payloads
    then concat
        (codes "<span class=\"badge badge-payload\">" ∷ to_decimal payloads ∷ codes "</span>" ∷ [])
    else codes "<span class=\"metric\">none</span>"

abbrev pub row_with : Row → Text → Text
row_with row short = concat (
    codes "<tr><td class=\"nowrap\" title=\""
    ∷ esc row.received_at
    ∷ codes "\">"
    ∷ esc (relative row.age)
    ∷ codes "</td><td class=\"mono\">"
    ∷ esc row.executable
    ∷ codes "</td><td>"
    ∷ package_cell row.package_name row.package_version
    ∷ codes "</td><td class=\"nowrap\">"
    ∷ esc (signal_label row.signal row.kind)
    ∷ codes "</td><td class=\"nowrap\">"
    ∷ esc row.distro
    ∷ codes " "
    ∷ esc row.distro_version
    ∷ codes " <span class=\"metric\">"
    ∷ esc row.architecture
    ∷ codes "</span></td><td class=\"mono nowrap\"><a href=\"/v1/signatures/"
    ∷ esc row.signature
    ∷ codes "\">"
    ∷ esc short
    ∷ codes "</a> <span class=\"metric\">x"
    ∷ to_decimal row.signature_events
    ∷ codes "</span></td><td class=\"nowrap\">"
    ∷ payload_cell row.payloads
    ∷ codes "</td></tr>"
    ∷ [])

abbrev pub with_short : Row → Option Text → Option Text
with_short row none = none
with_short row (some short) = some (row_with row short)

-- One row of the table; `none` is the panic of a slice inside a character.
unfoldable pub row_html : Row → Option Text
unfolding concat esc relative signal_label to_decimal slice_to byte_len
row_html row = with_short row (slice_to (min 12 (byte_len row.signature)) row.signature)

abbrev pub and_rest : Option Text → Option Text → Option Text
and_rest none rest = none
and_rest (some html) none = none
and_rest (some html) (some rest) = some (html ++ rest)

unfoldable pub rows_html : List Row → Option Text
unfolding row_html
rows_html [] = some []
rows_html (row ∷ rows) = and_rest (row_html row) (rows_html rows)

-- `reports_fragment`, where the database can be read.
unfoldable pub reports_fragment : List Row → Option Text
unfolding rows_html
reports_fragment [] =
    some (codes "<tr><td colspan=\"7\" class=\"empty-cell\">No crashes reported yet.</td></tr>")
reports_fragment (row ∷ rows) = rows_html (row ∷ rows)
