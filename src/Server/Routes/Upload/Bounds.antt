-- ===== src/Server/Routes/Upload/Bounds.antt =====
-- What an upload leaves behind: crates/blankres-server/src/routes.rs, `post_report`.
use blankres.Prelude.{
  ℕ, ◌≤◌, Bool, true, not, ◌&&◌, Option, List, [], ◌∷◌, ◌≡◌, refl, ltb, if◌then◌else◌,
}
use blankres.Server.Config.{Config}
use blankres.Server.Db.{Db, ReportRow}
use blankres.Server.Routes.{ApiResult, ok, err, Headers, authorize, unauthorized}
use blankres.Server.Routes.Upload.{Upload, Body, Receipt, Reading, presented_upload, post_report}
use blankres.Server.Routes.Upload.Leftover.{Left}
use blankres.Server.Storage.{Blob, Storage}
use blankres.Text.{Text}
use blankres.Text.Bytes.{Bytes}
use blankres.TextMap.{TextMap}

-- A total within the limit, where there is one.
abbrev ReadingWithin : ℕ → ApiResult Reading → Type 0
ReadingWithin limit (err status) = Unit
ReadingWithin limit (ok r) = r.total_bytes ≤ limit

abbrev UploadWithin : {M : Type 0} → ℕ → ApiResult (Upload M) → Type 0
UploadWithin limit (err status) = Unit
UploadWithin limit (ok u) = u.total_bytes ≤ limit

abbrev pub none_above : {M : Type 0} → ℕ → List (ReportRow M) → Bool
none_above limit [] = true
none_above limit (r ∷ rs) = not (ltb limit r.total_bytes) && none_above limit rs

-- What a request leaves behind: its reports within the configured maximum, and its temporary files.
abbrev pub Leaves :
    {M : Type 0} → Config → ℕ → Bool → Bool → ApiResult Receipt × Db M × Storage → Type 0
Leaves config n unlinks finishes (answer, db, storage) =
    (none_above config.max_payload_bytes db.reports ≡ true)
    × Left n unlinks finishes (answer, storage)

module _ {M : Type 0} (sha256_hex : Bytes → Text) (from_slice : Bytes → Option M)
    (to_value : TextMap Blob → M) (show_id : ℕ → Text) where
  pub post_report_lem :
      (config : Config) (headers : Headers) (body : Body) (report_id now : ℕ) (db : Db M)
      (storage : Storage)
      → post_report sha256_hex from_slice to_value show_id config headers body report_id now db
          storage
        ≡ (if not (authorize sha256_hex headers config)
            then (err unauthorized, db, storage)
            else presented_upload sha256_hex from_slice to_value show_id config headers.upload_token
                body report_id now db storage)
  unfolding post_report
  post_report_lem config headers body report_id now db storage = refl
