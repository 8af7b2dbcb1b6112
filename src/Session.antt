-- ===== src/Session.antt =====
-- crates/blankres-session/src/lib.rs: one crash, one decision; with what it uses of store.rs. The two
-- readings of the clock and the success of writing `declined.json` are arguments.
pub mod Declined
pub mod Consent
pub mod Disclosure
pub mod Store
use blankres.Prelude.{
  ℕ, Bool, true, false, not, Option, none, some, List, [], ◌∷◌, ◌++◌, filter, any, if◌then◌else◌,
}
use blankres.Client.{
  ClientError, Answer, ok, err, UploadReceipt, Network, Machine, send_events, upload_report,
}
use blankres.Report.Event.{CrashEvent, PayloadDirective, is_actionable}
use blankres.Report.Payload.{
  Attachment, inline_text, file, PendingUpload, core_dump, pending_actionable,
}
use blankres.Text.{Text, text_eq}

pub data Decision : Type 0 where
  send_it discard_it decline_it_forever : Decision

pub data SessionError : Type 0 where
  expired not_wanted : SessionError
  upload : ClientError → SessionError
  io : SessionError

pub data Outcome (A : Type 0) : Type 0 where
  done : A → Outcome A
  failed : SessionError → Outcome A

pub record PendingEntry : Type 0 where
  pub path : Text
  pub pending : PendingUpload

-- `std::fs::remove_file`, its error ignored: the file stays where it cannot be deleted.
unfoldable pub remove_file : (Text → Bool) → Text → List Text → List Text
unfolding text_eq
remove_file deletes path files =
    if deletes path then filter (λ f. not (text_eq f path)) files else files

abbrev remove_attachment : (Text → Bool) → Option Attachment → List Text → List Text
remove_attachment deletes none files = files
remove_attachment deletes (some (inline_text name content)) files = files
remove_attachment deletes (some (file name path size compression)) files =
    remove_file deletes path files

-- `PendingStore::remove_core` and `PendingStore::remove`
unfoldable pub remove_core : PendingEntry → Machine → Machine
unfolding core_dump remove_file
remove_core e m = record m {
  files = remove_attachment m.deletes (core_dump e.pending.report) m.files;
}

unfoldable pub remove : PendingEntry → Machine → Machine
unfolding remove_file
remove e m = record m { files = remove_file m.deletes e.path m.files }

unfoldable pub discard : PendingEntry → Machine → Machine
unfolding remove_core remove
discard e m = remove e (remove_core e m)

abbrev after_upload :
    PendingEntry → Answer UploadReceipt × Machine → Outcome UploadReceipt × Machine
after_upload e (err c, m) = (failed (upload c), m)
after_upload e (ok receipt, m) = (done receipt, remove e (remove_core e m))

-- `directives.pop().filter(|d| d.is_actionable(now))`
abbrev if_actionable : ℕ → PayloadDirective → Option PayloadDirective
if_actionable now d = if is_actionable d now then some d else none

unfoldable pub pop_actionable : ℕ → List PayloadDirective → Option PayloadDirective
unfolding is_actionable
pop_actionable now [] = none
pop_actionable now (d ∷ []) = if_actionable now d
pop_actionable now (d ∷ d' ∷ ds) = pop_actionable now (d' ∷ ds)

abbrev upload_if_wanted :
    Network → PendingEntry → Machine → Option PayloadDirective → Outcome UploadReceipt × Machine
upload_if_wanted net e m none = (failed not_wanted, discard e m)
upload_if_wanted net e m (some d) = after_upload e (upload_report net e.pending.report d m)

abbrev after_events :
    Network
    → PendingEntry
    → ℕ
    → Answer (List PayloadDirective) × Machine
    → Outcome UploadReceipt × Machine
after_events net e later (err c, m) = (failed (upload c), m)
after_events net e later (ok ds, m) = upload_if_wanted net e m (pop_actionable later ds)

-- `ReportSession::send`; `now` and `later` are its two readings of the clock.
unfoldable pub send : Network → PendingEntry → ℕ → ℕ → Machine → Outcome UploadReceipt × Machine
unfolding pending_actionable send_events upload_report pop_actionable discard remove_core remove
send net e now later m =
    if not (pending_actionable e.pending now)
    then (failed expired, m)
    else if e.pending.awaiting_directive
    then after_events net e later (send_events net (e.pending.report.event ∷ []) m)
    else after_upload e (upload_report net e.pending.report e.pending.directive m)

-- `Declined::contains` and `Declined::add`
unfoldable pub declined_contains : List Text → Text → Bool
unfolding text_eq
declined_contains signatures s = any (λ d. text_eq d s) signatures

unfoldable pub declined_add : List Text → Text → List Text
unfolding declined_contains
declined_add signatures s =
    if declined_contains signatures s then signatures else signatures ++ s ∷ []

-- `ReportSession::decline_forever`; the flag is the success of `Declined::save`.
unfoldable pub decline_forever :
    Bool → PendingEntry → Machine → Outcome (Option UploadReceipt) × Machine
unfolding declined_add discard
decline_forever false e m = (failed io, m)
decline_forever true e m = (
  done none,
  discard e (record m { declined = declined_add m.declined e.pending.report.event.signature.hash }),
)

abbrev some_receipt : Outcome UploadReceipt × Machine → Outcome (Option UploadReceipt) × Machine
some_receipt (failed c, m) = (failed c, m)
some_receipt (done r, m) = (done (some r), m)

-- `ReportSession::decide`
unfoldable pub decide :
    Network
    → Bool
    → PendingEntry
    → ℕ
    → ℕ
    → Decision
    → Machine
    → Outcome (Option UploadReceipt) × Machine
unfolding send discard decline_forever
decide net saved e now later send_it m = some_receipt (send net e now later m)
decide net saved e now later discard_it m = (done none, discard e m)
decide net saved e now later decline_it_forever m = decline_forever saved e m
