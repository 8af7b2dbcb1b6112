-- ===== src/Server/Routes/Upload/Once.antt =====
-- One token is one upload: crates/blankres-server/src/routes.rs, `post_report`.
use blankres.Prelude.{
  ℕ, true, Option, none, some, [], ◌≡◌, inl, inr, refl, arith, min, Bool-cases, if◌then◌else◌,
}
use blankres.Server.Config.{Config, hash_token}
use blankres.Server.Db.{Db, RedeemedToken, redeem_upload_token, record_report}
use blankres.Server.Db.Tokens.{HasUniqueTokens, redeem-again}
use blankres.Server.Routes.{ApiResult, ok, err, Headers, authorize, unauthorized, forbidden}
use blankres.Server.Routes.Upload.{
  Upload, Body, read_parts, described, received, redeemed_upload, presented_upload, post_report,
}
use blankres.Server.Routes.Upload.Bounds.{post_report_lem}
use blankres.Server.Storage.{Blob, Storage}
use blankres.Text.{Text}
use blankres.Text.Bytes.{Bytes}
use blankres.TextMap.{TextMap}

module _ {M : Type 0} (sha256_hex : Bytes → Text) (from_slice : Bytes → Option M)
    (to_value : TextMap Blob → M) (show_id : ℕ → Text) where
  described-upload_tokens :
      (config : Config) (t : RedeemedToken) (report_id : ℕ) (db : Db M) (u : Upload M)
      (storage : Storage) (m : Option M)
      → (described sha256_hex from_slice to_value show_id config t report_id db u storage
          m).1.upload_tokens
        ≡ db.upload_tokens
  unfolding record_report
  described-upload_tokens config t report_id db u storage none = refl
  described-upload_tokens config t report_id db u storage (some m) = ground arith

  redeemed_upload-upload_tokens :
      (config : Config) (body : Body) (report_id : ℕ) (storage : Storage) (t : Option RedeemedToken)
      (db : Db M)
      → (redeemed_upload sha256_hex from_slice to_value show_id config body report_id storage
          (t, db)).1.upload_tokens
        ≡ db.upload_tokens
  redeemed_upload-upload_tokens config body report_id storage none db = refl
  redeemed_upload-upload_tokens config body report_id storage (some t) db = received_case (
      read_parts sha256_hex from_slice (min t.max_bytes config.max_payload_bytes) body.malformed
        body.parts (record { metadata = none; blobs = []; total_bytes = 0 }) storage)
    where
      received_case :
          (x : ApiResult (Upload M) × Storage)
          → (received sha256_hex from_slice to_value show_id config t report_id db
              x).1.upload_tokens
            ≡ db.upload_tokens
      received_case (err status, s) = refl
      received_case (ok u, s) = described-upload_tokens config t report_id db u s u.metadata

  presented_upload-upload_tokens :
      (config : Config) (token : Text) (body : Body) (report_id now : ℕ) (db : Db M)
      (storage : Storage)
      → (presented_upload sha256_hex from_slice to_value show_id config
          (some token)
          body
          report_id
          now
          db
          storage).1.upload_tokens
        ≡ (redeem_upload_token db (hash_token sha256_hex token) now).1.upload_tokens
  presented_upload-upload_tokens config token body report_id now db storage =
      let (t, db') = redeem_upload_token db (hash_token sha256_hex token) now in
      redeemed_upload-upload_tokens config body report_id storage t db'

  post_report-upload_tokens :
      (config : Config) (headers : Headers) (body : Body) (report_id now : ℕ) (db : Db M)
      (storage : Storage) (token : Text)
      → authorize sha256_hex headers config ≡ true
      → headers.upload_token ≡ some token
      → (post_report sha256_hex from_slice to_value show_id config headers body report_id now db
          storage).1.upload_tokens
        ≡ (redeem_upload_token db (hash_token sha256_hex token) now).1.upload_tokens
  post_report-upload_tokens config headers body report_id now db storage token e t =
      rw
        (
          post_report_lem sha256_hex from_slice to_value show_id config headers body report_id now
              db storage,
          e,
          t,
        )
        (presented_upload-upload_tokens config token body report_id now db storage)

  presented_upload-refused :
      (config : Config) (token : Text) (body : Body) (report_id now : ℕ) (db : Db M)
      (storage : Storage)
      → redeem_upload_token db (hash_token sha256_hex token) now ≡ (none, db)
      → presented_upload sha256_hex from_slice to_value show_id config
          (some token)
          body
          report_id
          now
          db
          storage
        ≡ (err forbidden, db, storage)
  presented_upload-refused config token body report_id now db storage e = rw e refl

  post_report-refused :
      (config : Config) (headers : Headers) (body : Body) (report_id now : ℕ) (db : Db M)
      (storage : Storage) (token : Text)
      → headers.upload_token ≡ some token
      → redeem_upload_token db (hash_token sha256_hex token) now ≡ (none, db)
      → post_report sha256_hex from_slice to_value show_id config headers body report_id now db
          storage
        ≡ (
          err (if authorize sha256_hex headers config then forbidden else unauthorized),
          db,
          storage,
        )
  post_report-refused config headers body report_id now db storage token t e =
      elim (Bool-cases (authorize sha256_hex headers config)) [
        | inl a ↦
            rw
              (
                post_report_lem sha256_hex from_slice to_value show_id config headers body report_id
                    now db storage,
                a,
                t,
              )
              (presented_upload-refused config token body report_id now db storage e)
        | inr a ↦
            rw
              (
                post_report_lem sha256_hex from_slice to_value show_id config headers body report_id
                    now db storage,
                a,
              )
              refl
      ]

  -- Once an authorised request has redeemed its token, whatever became of its upload, a later request
  -- with the same token is refused and changes neither the database nor the store: it is answered 403,
  -- or 401 where it is not authorised.
  pub upload_once :
      (config : Config) (first second : Headers) (body body' : Body) (id id' now later : ℕ)
      (db : Db M) (storage storage' : Storage) (token : Text) {r : RedeemedToken}
      → HasUniqueTokens db.upload_tokens
      → authorize sha256_hex first config ≡ true
      → first.upload_token ≡ some token
      → second.upload_token ≡ some token
      → (redeem_upload_token db (hash_token sha256_hex token) now).0 ≡ some r
      → let after =
          (post_report sha256_hex from_slice to_value show_id config first body id now db
            storage).1 in
        post_report sha256_hex from_slice to_value show_id config second body' id' later after
          storage'
        ≡ (
          err (if authorize sha256_hex second config then forbidden else unauthorized),
          after,
          storage',
        )
  upload_once config first second body body' id id' now later db storage storage' token u e t1 t2
        redeemed =
      let after =
        (post_report sha256_hex from_slice to_value show_id config first body id now db
          storage).1 in
      post_report-refused config second body' id' later after storage' token t2 (
        redeem-again db after (hash_token sha256_hex token) now later u redeemed
          (post_report-upload_tokens config first body id now db storage token e t1))
