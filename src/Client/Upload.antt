-- ===== src/Client/Upload.antt =====
-- When `upload_report` of crates/blankres-client/src/lib.rs sends anything.
use blankres.Prelude.{
  ◌⊎◌, inl, inr, ℕ, ◌+◌, ◌%◌, ◌^◌, ◌<◌, Bool, true, false, not, ◌&&◌, ◌||◌, Option, none, some,
  List, [], ◌∷◌, ◌++◌, any, leb, ◌≡◌, refl, ap, arith, if◌then◌else◌, Option-cases, Bool-cases,
  lt→ltb,
}
use blankres.Client.{
  ClientError, err, no_upload_token, too_large, io, Answer, UploadReceipt, Network, Machine,
  post_report, log_request, file_exists, unreadable, over_limit, upload_report,
}
use blankres.Report.Event.{PayloadDirective, is_some}
use blankres.Report.Payload.{
  Attachment, inline_text, file, Report, attachment_size, sum_sizes, transfer_size,
}
use blankres.Text.{Text, text_eq}
use blankres.Text.Bytes.{byte_len}
use blankres.Text.Equality.{text_eq_refl}

abbrev pub is_within : ℕ → Option ℕ → Bool
is_within size none = true
is_within size (some limit) = leb size limit

abbrev pub token_of : PayloadDirective → Text
token_of d = elim d.upload_token [ none ↦ [] | some t ↦ t ]

-- The directive has a token, the payload is within its limit, and every file can be opened.
abbrev pub can_upload : List Text → Report → PayloadDirective → Bool
can_upload files report d =
    is_some d.upload_token
    && is_within (transfer_size report) d.max_bytes
    && not (is_some (unreadable files report.attachments))

-- What a call of `upload_report` does, by its tests.
pub upload_report_lem :
    (net : Network) (report : Report) (d : PayloadDirective) (m : Machine)
    → ((upload_report net report d m).1 ≡ (
        if can_upload m.files report d then log_request m (post_report (token_of d) report) else m))
      × ((can_upload m.files report d ≡ true)
            × ((upload_report net report d m).0 ≡ net.report_answer m.sent (token_of d) report)
          ⊎ (can_upload m.files report d ≡ false)
            × (c : ClientError) × ((upload_report net report d m).0 ≡ err c))
unfolding upload_report
upload_report_lem net report d m = ground arith

-- The bytes of all attachments, which no machine integer bounds.
abbrev pub total_bytes : List Attachment → ℕ
total_bytes [] = 0
total_bytes (inline_text name content ∷ rest) = byte_len content + total_bytes rest
total_bytes (file name path size compression ∷ rest) = size + total_bytes rest

abbrev pub is_there : Text → List Text → Bool
is_there path files = any (λ f. text_eq f path) files

-- Is there a file at the path of each attachment that is one?
abbrev pub are_there : List Text → List Attachment → Bool
are_there files [] = true
are_there files (inline_text name content ∷ rest) = are_there files rest
are_there files (file name path size compression ∷ rest) =
    is_there path files && are_there files rest

abbrev pub is_attached : Text → List Attachment → Bool
is_attached path [] = false
is_attached path (inline_text name content ∷ rest) = is_attached path rest
is_attached path (file name at size compression ∷ rest) = text_eq at path || is_attached path rest

transfer_size-total_bytes :
    (attachments : List Attachment) → sum_sizes attachments ≡ total_bytes attachments % 2 ^ 64
unfolding sum_sizes attachment_size
transfer_size-total_bytes [] = refl
transfer_size-total_bytes (inline_text name content ∷ rest) =
    omega (arith, transfer_size-total_bytes rest)
transfer_size-total_bytes (file name path size compression ∷ rest) =
    omega (arith, transfer_size-total_bytes rest)

-- Either every file is there, or the one that is missing is attached.
unreadable_lem :
    (files : List Text) (attachments : List Attachment)
    → ((unreadable files attachments ≡ none) × (are_there files attachments ≡ true))
      ⊎ ((path : Text) × (unreadable files attachments ≡ some path)
          × (are_there files attachments ≡ false)
          × (is_attached path attachments ≡ true)
          × (is_there path files ≡ false))
unfolding unreadable file_exists
unreadable_lem files [] = inl (refl, refl)
unreadable_lem files (inline_text name content ∷ rest) = unreadable_lem files rest
unreadable_lem files (file name path size compression ∷ rest) =
    elim (Bool-cases (is_there path files)) [
      | inl here ↦ elim (unreadable_lem files rest) [
        | inl (e, all_there) ↦ inl (rw (here, e) refl, rw (here, all_there) refl)
        | inr (p, e, some_missing, attached, missing) ↦
            inr (
              p,
              rw (here, e) refl,
              rw (here, some_missing) refl,
              ground (arith, attached),
              missing,
            )
      ]
      | inr gone ↦ inr (path, rw gone refl, rw gone refl, rw (text_eq_refl path) refl, gone)
    ]

over_limit_lem :
    (size : ℕ) (max_bytes : Option ℕ)
    → is_within size max_bytes ≡ false
    → (limit : ℕ) × (max_bytes ≡ some limit) × (limit < size)
over_limit_lem size none h = cc
over_limit_lem size (some limit) h = (limit, refl, ground arith)

within_limit_lem :
    (size : ℕ) (max_bytes : Option ℕ)
    → is_within size max_bytes ≡ true
    → over_limit size max_bytes ≡ none
within_limit_lem size none h = refl
within_limit_lem size (some limit) h = ground arith

-- What becomes of an upload: its answer and the machine behind it.
abbrev pub UploadEffect :
    Network → Report → PayloadDirective → Machine → Answer UploadReceipt × Machine → Type 0
UploadEffect net report d m (answer, m') =
    let bytes = total_bytes report.attachments % 2 ^ 64 in
    ((token : Text) × (d.upload_token ≡ some token)
      × (is_within bytes d.max_bytes ≡ true)
      × (are_there m.files report.attachments ≡ true)
      × (answer ≡ net.report_answer m.sent token report)
      × (m' ≡ record m { sent = m.sent ++ post_report token report ∷ [] }))
    ⊎ ((m' ≡ m)
        × (((d.upload_token ≡ none) × (answer ≡ err no_upload_token))
            ⊎ (((limit : ℕ) × (d.max_bytes ≡ some limit)
                  × (limit < bytes)
                  × (answer ≡ err (too_large bytes limit)))
                ⊎ ((path : Text) × (is_attached path report.attachments ≡ true)
                    × (is_there path m.files ≡ false)
                    × (answer ≡ err (io path))))))

-- An upload is sent only where the directive carries a token, the bytes of all attachments, inline texts
-- and files alike, are within the limit of the directive as a 64-bit number, and every attached file
-- is there. It then carries that token and that report, and what the server says is the answer.
-- Otherwise nothing is sent, nothing on the machine changes, and the answer says which it was: no
-- token, more bytes than the limit, or an attached file that is missing.
pub upload_report_exact :
    (net : Network) (report : Report) (d : PayloadDirective) (m : Machine)
    → UploadEffect net report d m (upload_report net report d m)
unfolding upload_report transfer_size
upload_report_exact net report d m =
    let size = total_bytes report.attachments % 2 ^ 64 in
    let same = transfer_size-total_bytes report.attachments in
    elim (Option-cases d.upload_token) [
      | inl no_token ↦ rw no_token (inr (refl, inl (refl, refl)))
      | inr (token, e) ↦ elim (Bool-cases (is_within size d.max_bytes)) [
        | inr over ↦
            let (limit, e', more) = over_limit_lem size d.max_bytes over in
            rw (e, e', same, lt→ltb limit size more)
              (inr (refl, inr (inl (limit, refl, more, ap (λ b. err (too_large b limit)) same))))
        | inl within ↦
            let open_to = within_limit_lem size d.max_bytes within in
            elim (unreadable_lem m.files report.attachments) [
              | inl (readable, all_there) ↦
                  rw (e, same, open_to, readable) (inl (token, refl, within, all_there, refl, refl))
              | inr (path, found, some_missing, attached, missing) ↦
                  rw (e, same, open_to, found)
                    (inr (refl, inr (inr (path, attached, missing, refl))))
            ]
      ]
    ]
