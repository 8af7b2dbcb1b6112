-- ===== src/Tests/Session.antt =====
-- crates/blankres-session and crates/blankres-client at concrete inputs.
use blankres.Prelude.{any, ◌==◌, Bool, Option, true, false, some, [], ◌∷◌, ◌≡◌, refl}
use blankres.Report.Payload.{PendingUpload, file_name}
use blankres.Session.{PendingEntry}
use blankres.Session.Store.{CrashDir, write_pending, list, load}
use blankres.Session.Store.Listed.{entry_of, is_newest_first, write_pending-list}
use blankres.Text.{Text}
use blankres.Text.Bytes.{Bytes}
use blankres.Prelude.{not, true, false, none, [], ◌∷◌, ◌≡◌, ◌⊎◌}
use blankres.Client.{ok, Network, Machine, upload_report}
use blankres.Client.Upload.{UploadEffect, upload_report_exact}
use blankres.Session.{PendingEntry, discard_it, decline_it_forever, decide, declined_contains}
use blankres.Session.Consent.{IsRemoved, decide_consent}
use blankres.Tests.Data.{hash_a, crash_report, directive}
use blankres.Text.{codes, text_eq}

abbrev net : Network
net = record {
  events_answer = λ sent events. ok (directive ∷ []);
  report_answer = λ sent token report. ok (record { id = codes "9"; url = none });
}

abbrev entry : PendingEntry
entry = record {
  path = codes "/pending/cat";
  pending = record {
    report = crash_report;
    directive = directive;
    written_at = 1000;
    awaiting_directive = true;
  };
}

abbrev machine : Machine
machine = record {
  files = codes "/pending/cat" ∷ codes "/var/core" ∷ codes "/etc/passwd" ∷ [];
  deletes = λ f. not (text_eq f (codes "/etc/passwd"));
  declined = [];
  sent = [];
}

decide_consent_example :
    ((decide net true entry 2000 2001 discard_it machine).1.sent ≡ [])
    × IsRemoved entry machine (decide net true entry 2000 2001 discard_it machine).1
    × ((decide net true entry 2000 2001 decline_it_forever machine).1.sent ≡ [])
    × (((true ≡ false) × ((decide net true entry 2000 2001 decline_it_forever machine).1 ≡ machine))
        ⊎ ((true ≡ true)
            × IsRemoved entry machine (decide net true entry 2000 2001 decline_it_forever machine).1
            × (declined_contains
                  (decide net true entry 2000 2001 decline_it_forever machine).1.declined
                  hash_a
                ≡ true)))
decide_consent_example = decide_consent net true entry 2000 2001 machine

upload_report_exact_example :
    UploadEffect net crash_report directive machine
      (upload_report net crash_report directive machine)
upload_report_exact_example = upload_report_exact net crash_report directive machine

abbrev pending_report : PendingUpload
pending_report = record {
  report = crash_report;
  directive = directive;
  written_at = 5;
  awaiting_directive = false;
}

abbrev printed : PendingUpload → Option Bytes
printed p = some (1 ∷ [])

abbrev parsed : Bytes → Option PendingUpload
parsed bytes = some pending_report

abbrev no_reports : CrashDir
no_reports uid = []

abbrev report_file : Text
report_file = codes "usr_bin_cat.1000.aa.report"

abbrev report_entry : PendingEntry
report_entry = entry_of printed parsed (codes "/var/crash") 1000 report_file pending_report

abbrev was_written : PendingEntry → Bool
was_written e = e.pending.written_at == 5

report_named : file_name pending_report ≡ some report_file
unfolding file_name
report_named = refl

write_pending-list_example :
    ((write_pending printed true pending_report no_reports).0 ≡ some report_file)
    × (any was_written (
          list parsed
            (codes "/var/crash")
            1000
            (write_pending printed true pending_report no_reports).1)
        ≡ true)
    × (is_newest_first (
          list parsed
            (codes "/var/crash")
            1000
            (write_pending printed true pending_report no_reports).1)
        ≡ true)
    × (load parsed
          (codes "/var/crash")
          1000
          report_file
          (write_pending printed true pending_report no_reports).1
        ≡ some report_entry)
    × ((write_pending printed true pending_report no_reports).1 7 ≡ [])
write_pending-list_example =
    write_pending-list printed parsed (codes "/var/crash") pending_report no_reports report_file
      (1 ∷ []) was_written 7 report_named refl refl refl refl
