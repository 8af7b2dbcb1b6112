-- ===== src/Session/Consent.antt =====
-- What `decide` and `send` of crates/blankres-session/src/lib.rs do to the machine on every branch.
use blankres.Prelude.{
  ◌||◌, ◌+◌, count, ℕ, ◌≤◌, Bool, true, false, not, ◌&&◌, Option, none, some, List, [], ◌∷◌, ◌≡◌,
  refl, arith, ◌⊎◌, inl, inr,
}
use blankres.Client.{
  Answer, ok, err, UploadReceipt, Network, Machine, Request, post_events, post_report, file_exists,
}
use blankres.Report.Payload.{Attachment, inline_text, file, Report, core_dump}
use blankres.Session.{
  discard_it, decline_it_forever, expired, not_wanted, upload, io, Outcome, done, failed,
  PendingEntry, remove_file, remove_core, remove_attachment, discard, declined_contains,
  declined_add, decide,
}
use blankres.Session.Declined.{contains-add_self}
use blankres.Text.{Text, text_eq}
use blankres.Text.Equality.{text_eq_iff}

-- The core dump file of a pending report.
abbrev is_core_file : Text → Option Attachment → Bool
is_core_file f none = false
is_core_file f (some (inline_text name content)) = false
is_core_file f (some (file name path size compression)) = text_eq f path

abbrev pub is_of_entry : PendingEntry → Text → Bool
is_of_entry e f = text_eq f e.path || is_core_file f (core_dump e.pending.report)

pub file_exists-remove_file :
    (deletes : Text → Bool) (path f : Text) (files : List Text)
    → file_exists f (remove_file deletes path files)
      ≡ (not (text_eq f path && deletes f) && file_exists f files)
unfolding file_exists remove_file
file_exists-remove_file deletes path f [] = ground arith
file_exists-remove_file deletes path f (x ∷ files) = ground (
  arith,
  file_exists-remove_file deletes path f files,
  text_eq_iff x path,
  text_eq_iff x f,
  text_eq_iff f path,
)

-- Both files of the entry are gone where they can be deleted, all others are as they were, and the requests too.
file_exists-discard :
    (e : PendingEntry) (m : Machine) (f : Text)
    → file_exists f (discard e m).files
      ≡ (not (is_of_entry e f && m.deletes f) && file_exists f m.files)
unfolding discard
file_exists-discard e m f =
    rw (file_exists-remove_file m.deletes e.path f (remove_core e m).files)
      (go (core_dump e.pending.report))
  where
    go :
        (a : Option Attachment)
        → (not (text_eq f e.path && m.deletes f)
            && file_exists f (remove_attachment m.deletes a m.files))
          ≡ (not ((text_eq f e.path || is_core_file f a) && m.deletes f) && file_exists f m.files)
    go none = ground arith
    go (some (inline_text name content)) = ground arith
    go (some (file name path size compression)) =
        ground (arith, file_exists-remove_file m.deletes path f m.files)

abbrev is_upload : Request → Bool
is_upload (post_events events) = false
is_upload (post_report token report) = true

-- How many payloads were sent.
abbrev pub uploads : Machine → ℕ
uploads m = count is_upload m.sent

-- The files of the entry that can be deleted are gone, and no others.
abbrev pub IsRemoved : PendingEntry → Machine → Machine → Type 0
IsRemoved e m m' =
    (f : Text)
    → file_exists f m'.files ≡ (not (is_of_entry e f && m.deletes f) && file_exists f m.files)

-- What `send` is to leave behind, by its outcome.
abbrev pub SendPost : PendingEntry → Machine → Outcome UploadReceipt × Machine → Type 0
SendPost e m (done receipt, m') = IsRemoved e m m' × (uploads m' ≡ uploads m + 1)
SendPost e m (failed expired, m') = m' ≡ m
SendPost e m (failed not_wanted, m') = IsRemoved e m m' × (uploads m' ≡ uploads m)
SendPost e m (failed (upload c), m') = (m'.files ≡ m.files) × (uploads m' ≤ uploads m + 1)
SendPost e m (failed io, m') = ⊥

-- Two machines whose files are the same.
abbrev HasSameFiles : Machine → Machine → Type 0
HasSameFiles m m' = (m'.files ≡ m.files) × (m'.deletes ≡ m.deletes)

abbrev UploadPost : Machine → Answer UploadReceipt × Machine → Type 0
UploadPost m (ok receipt, m') = HasSameFiles m m' × (uploads m' ≡ uploads m + 1)
UploadPost m (err c, m') = HasSameFiles m m' × (uploads m' ≤ uploads m + 1)

-- Without consent nothing is sent: discarding and declining make no request, whatever the report. A
-- discarded report is gone with its core dump, each where it can be deleted. A declined one is too, and its signature is recorded,
-- unless the record cannot be written: then nothing changes.
pub decide_consent :
    (net : Network) (saved : Bool) (e : PendingEntry) (now later : ℕ) (m : Machine)
    → ((decide net saved e now later discard_it m).1.sent ≡ m.sent)
      × IsRemoved e m (decide net saved e now later discard_it m).1
      × ((decide net saved e now later decline_it_forever m).1.sent ≡ m.sent)
      × (((saved ≡ false) × ((decide net saved e now later decline_it_forever m).1 ≡ m))
          ⊎ ((saved ≡ true)
              × IsRemoved e m (decide net saved e now later decline_it_forever m).1
              × (declined_contains
                    (decide net saved e now later decline_it_forever m).1.declined
                    e.pending.report.event.signature.hash
                  ≡ true)))
unfolding decide
decide_consent net false e now later m = (refl, file_exists-discard e m, refl, inl (refl, refl))
decide_consent net true e now later m =
    let hash = e.pending.report.event.signature.hash in
    let noted : Machine = record m { declined = declined_add m.declined hash } in
    (
      refl,
      file_exists-discard e m,
      refl,
      inr (refl, file_exists-discard e noted, contains-add_self m.declined hash),
    )
