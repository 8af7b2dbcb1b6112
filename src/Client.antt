-- ===== src/Client.antt =====
-- crates/blankres-client/src/lib.rs: the protocol from the machine's side. The HTTP library and the
-- server behind it are a record of answers; the requests that were sent are kept in order.
pub mod Upload
use blankres.Prelude.{
  ℕ, Bool, true, false, not, ◌&&◌, Option, none, some, List, [], ◌∷◌, ◌++◌, length, ltb,
  if◌then◌else◌, ◌==◌, any,
}
use blankres.Report.Event.{CrashEvent, PayloadDirective}
use blankres.Report.Payload.{Attachment, inline_text, file, Report, transfer_size}
use blankres.Text.{Text, text_eq}

pub data ClientError : Type 0 where
  transport : ClientError
  rejected : ℕ → Text → ClientError
  directive_mismatch : ℕ → ℕ → ClientError
  no_upload_token : ClientError
  too_large : ℕ → ℕ → ClientError
  io : Text → ClientError

pub data Answer (A : Type 0) : Type 0 where
  ok : A → Answer A
  err : ClientError → Answer A

pub record UploadReceipt : Type 0 where
  pub id : Text
  pub url : Option Text

pub data Request : Type 0 where
  post_events : List CrashEvent → Request
  post_report : Text → Report → Request

-- What the server answers, once a request has been sent, transport errors and rejections included;
-- it may depend on all that was sent before.
pub record Network : Type 0 where
  pub events_answer : List Request → List CrashEvent → Answer (List PayloadDirective)
  pub report_answer : List Request → Text → Report → Answer UploadReceipt

-- The machine: the files that are there, which of them it lets its user delete, the user's `declined.json`, and the requests sent.
pub record Machine : Type 0 where
  pub files : List Text
  pub deletes : Text → Bool
  pub declined : List Text
  pub sent : List Request

abbrev pub log_request : Machine → Request → Machine
log_request m r = record m { sent = m.sent ++ r ∷ [] }

abbrev one_for_each :
    List CrashEvent → Answer (List PayloadDirective) → Answer (List PayloadDirective)
one_for_each events (err e) = err e
one_for_each events (ok directives) =
    if length directives == length events
    then ok directives
    else err (directive_mismatch (length events) (length directives))

-- `Client::send_events`
unfoldable pub send_events :
    Network → List CrashEvent → Machine → Answer (List PayloadDirective) × Machine
send_events net events m =
    (one_for_each events (net.events_answer m.sent events), log_request m (post_events events))

unfoldable pub file_exists : Text → List Text → Bool
unfolding text_eq
file_exists path files = any (λ f. text_eq f path) files

-- The first file that `part_for` cannot open.
unfoldable pub unreadable : List Text → List Attachment → Option Text
unfolding file_exists
unreadable files [] = none
unreadable files (inline_text name content ∷ rest) = unreadable files rest
unreadable files (file name path size compression ∷ rest) =
    let later = unreadable files rest in if file_exists path files then later else some path

abbrev pub over_limit : ℕ → Option ℕ → Option ℕ
over_limit size none = none
over_limit size (some limit) = if ltb limit size then some limit else none

abbrev upload_parts :
    Network → Report → Text → Machine → Option Text → Answer UploadReceipt × Machine
upload_parts net report token m (some path) = (err (io path), m)
upload_parts net report token m none =
    (net.report_answer m.sent token report, log_request m (post_report token report))

abbrev upload_within : Network → Report → Text → Machine → Option ℕ → Answer UploadReceipt × Machine
upload_within net report token m (some limit) = (err (too_large (transfer_size report) limit), m)
upload_within net report token m none =
    upload_parts net report token m (unreadable m.files report.attachments)

abbrev upload_with :
    Network → Report → Option ℕ → Machine → Option Text → Answer UploadReceipt × Machine
upload_with net report max_bytes m none = (err no_upload_token, m)
upload_with net report max_bytes m (some token) =
    upload_within net report token m (over_limit (transfer_size report) max_bytes)

-- `Client::upload_report`
unfoldable pub upload_report :
    Network → Report → PayloadDirective → Machine → Answer UploadReceipt × Machine
unfolding unreadable transfer_size
upload_report net report directive m =
    upload_with net report directive.max_bytes m directive.upload_token
