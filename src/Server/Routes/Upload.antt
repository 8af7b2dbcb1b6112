-- ===== src/Server/Routes/Upload.antt =====
-- crates/blankres-server/src/routes.rs: `post_report`. The multipart reader, JSON and the fresh identifier
-- are parameters. The sidecar of the metadata, whose failure is only logged, is left out.
pub mod Leftover
pub mod Bounds
pub mod Once
use blankres.Prelude.{
  ℕ, ◌+◌, Bool, true, false, not, ◌&&◌, Option, none, some, List, [], ◌∷◌, ◌++◌, length, min, ltb,
  if◌then◌else◌,
}
use blankres.Server.Config.{Config, hash_token}
use blankres.Server.Db.{Db, RedeemedToken, redeem_upload_token, record_report}
use blankres.Server.Routes.{
  ApiResult, ok, err, Headers, Part, authorize, bad_request, unauthorized, forbidden,
  payload_too_large, internal_error,
}
use blankres.Server.Storage.{Blob, Storage, Disk, BlobWriter, begin, write, finish, abort}
use blankres.Text.{Text, codes, text_eq}
use blankres.Text.Bytes.{Bytes}
use blankres.TextMap.{TextMap, insert}

-- What the loop over the chunks of one part carries.
pub record Reading : Type 0 where
  pub total_bytes : ℕ
  pub metadata_bytes : Bytes
  pub writer : BlobWriter

-- What the loop over the parts carries.
pub record Upload (M : Type 0) : Type 0 where
  pub metadata : Option M
  pub blobs : TextMap Blob
  pub total_bytes : ℕ

-- The body: its parts, and whether the reader fails behind them.
pub record Body : Type 0 where
  pub parts : List Part
  pub malformed : Bool

pub record Receipt : Type 0 where
  pub id : ℕ
  pub url : Option Text

abbrev pub is_metadata : Text → Bool
is_metadata name = text_eq name (codes "metadata")

abbrev with_writer : ℕ → Bytes → Option BlobWriter → Option Reading
with_writer total bytes none = none
with_writer total bytes (some w) =
    some (record { total_bytes = total; metadata_bytes = bytes; writer = w })

-- One chunk; `none` is a payload that is too large, or an error of the disk, which is answered alike.
unfoldable pub take_chunk : Disk → ℕ → Bool → Bytes → Reading → Option Reading
unfolding write
take_chunk disk limit for_metadata chunk r =
    let total = r.total_bytes + length chunk in
    if ltb limit total
    then none
    else if for_metadata
    then some (record r { total_bytes = total; metadata_bytes = r.metadata_bytes ++ chunk })
    else with_writer total r.metadata_bytes (write disk r.writer chunk limit)

-- The loop over the chunks of a part.
unfoldable pub read_chunks : Disk → ℕ → Bool → Bool → List Bytes → Reading → ApiResult Reading
unfolding take_chunk
read_chunks disk limit for_metadata broken [] r = if broken then err bad_request else ok r
read_chunks disk limit for_metadata broken (chunk ∷ chunks) r =
    elim (take_chunk disk limit for_metadata chunk r) [
      | none ↦ err payload_too_large
      | some r' ↦ read_chunks disk limit for_metadata broken chunks r'
    ]

module _ {M : Type 0} (sha256_hex : Bytes → Text) (from_slice : Bytes → Option M) where
  abbrev metadata_read :
      Disk → Upload M → Reading → Storage → Option M → ApiResult (Upload M) × Storage
  metadata_read disk u r storage none = (err bad_request, abort disk storage)
  metadata_read disk u r storage (some m) =
      (ok (record u { metadata = some m; total_bytes = r.total_bytes }), abort disk storage)

  abbrev blob_read :
      Upload M → Text → Reading → Option Blob × Storage → ApiResult (Upload M) × Storage
  blob_read u name r (none, storage) = (err internal_error, storage)
  blob_read u name r (some blob, storage) =
      (ok (record u { blobs = insert name blob u.blobs; total_bytes = r.total_bytes }), storage)

  abbrev part_read :
      Disk → Upload M → Text → Storage → ApiResult Reading → ApiResult (Upload M) × Storage
  part_read disk u name storage (err status) = (err status, abort disk storage)
  part_read disk u name storage (ok r) =
      if is_metadata name
      then metadata_read disk u r storage (from_slice r.metadata_bytes)
      else blob_read u name r (finish sha256_hex disk r.writer storage)

  abbrev opened_part :
      ℕ → Part → Upload M → Storage → Option (BlobWriter × Storage) → ApiResult (Upload M) × Storage
  opened_part limit part u storage none = (err internal_error, storage)
  opened_part limit part u storage (some (writer, opened)) =
      part_read part.disk u part.name opened (
        read_chunks part.disk limit (is_metadata part.name) part.broken part.chunks
          (record { total_bytes = u.total_bytes; metadata_bytes = []; writer = writer }))

  -- One round of the loop over the parts.
  unfoldable pub read_part : ℕ → Part → Upload M → Storage → ApiResult (Upload M) × Storage
  unfolding begin read_chunks finish abort insert text_eq
  read_part limit part u storage = opened_part limit part u storage (begin part.disk storage)

  -- The loop over the parts.
  unfoldable pub read_parts :
      ℕ → Bool → List Part → Upload M → Storage → ApiResult (Upload M) × Storage
  unfolding read_part
  read_parts limit malformed [] u storage = (if malformed then err bad_request else ok u, storage)
  read_parts limit malformed (part ∷ parts) u storage =
      let (answer, storage') = read_part limit part u storage in
      elim answer [
        | err status ↦ (err status, storage')
        | ok u' ↦ read_parts limit malformed parts u' storage'
      ]

  module _ (to_value : TextMap Blob → M) (show_id : ℕ → Text) where
    abbrev url_of : Config → ℕ → Option Text
    url_of config report_id = elim config.public_url [
      | none ↦ none
      | some base ↦ some (base ++ codes "/v1/reports/" ++ show_id report_id)
    ]

    abbrev recorded :
        Config → ℕ → Db M → Storage → Option (Db M) → ApiResult Receipt × Db M × Storage
    recorded config report_id db storage none = (err internal_error, db, storage)
    recorded config report_id db storage (some db') =
        (ok (record { id = report_id; url = url_of config report_id }), db', storage)

    abbrev pub described :
        Config
        → RedeemedToken
        → ℕ
        → Db M
        → Upload M
        → Storage
        → Option M
        → ApiResult Receipt × Db M × Storage
    described config t report_id db u storage none = (err bad_request, db, storage)
    described config t report_id db u storage (some m) =
        recorded config report_id db storage
          (record_report db report_id t.event_id t.signature u.total_bytes m (to_value u.blobs))

    abbrev pub received :
        Config
        → RedeemedToken
        → ℕ
        → Db M
        → ApiResult (Upload M) × Storage
        → ApiResult Receipt × Db M × Storage
    received config t report_id db (err status, storage) = (err status, db, storage)
    received config t report_id db (ok u, storage) =
        described config t report_id db u storage u.metadata

    abbrev pub redeemed_upload :
        Config
        → Body
        → ℕ
        → Storage
        → Option RedeemedToken × Db M
        → ApiResult Receipt × Db M × Storage
    redeemed_upload config body report_id storage (none, db) = (err forbidden, db, storage)
    redeemed_upload config body report_id storage (some t, db) = received config t report_id db (
        read_parts (min t.max_bytes config.max_payload_bytes) body.malformed body.parts
          (record { metadata = none; blobs = []; total_bytes = 0 }) storage)

    abbrev pub presented_upload :
        Config → Option Text → Body → ℕ → ℕ → Db M → Storage → ApiResult Receipt × Db M × Storage
    presented_upload config none body report_id now db storage = (err forbidden, db, storage)
    presented_upload config (some token) body report_id now db storage =
        redeemed_upload config body report_id storage
          (redeem_upload_token db (hash_token sha256_hex token) now)

    -- `report_id` is the fresh identifier and `now` the clock of the database.
    unfoldable pub post_report :
        Config → Headers → Body → ℕ → ℕ → Db M → Storage → ApiResult Receipt × Db M × Storage
    unfolding authorize read_parts redeem_upload_token record_report hash_token
    post_report config headers body report_id now db storage =
        if not (authorize sha256_hex headers config)
        then (err unauthorized, db, storage)
        else presented_upload config headers.upload_token body report_id now db storage
