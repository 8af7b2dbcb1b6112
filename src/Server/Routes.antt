-- ===== src/Server/Routes.antt =====
-- crates/blankres-server/src/routes.rs: the two ingest endpoints. The hasher, JSON, the print of an
-- identifier and what is fresh (identifiers, tokens, the clock) are parameters.
pub mod Events
pub mod Upload
use blankres.Prelude.{
  ℕ, ◌+◌, ◌-◌, ◌*◌, ◌/◌, ◌^◌, Bool, true, false, not, ◌&&◌, Option, none, some, List, [], ◌∷◌, ◌++◌,
  ◌≡◌, ◌⊎◌, inl, inr, refl, any, length, min, ltb, if◌then◌else◌,
}
use blankres.Report.Event.{CrashEvent, PayloadDirective, not_needed}
use blankres.Server.Config.{Config, is_open, hash_token}
use blankres.Server.Db.{
  Db, EventOutcome, RedeemedToken, record_event, issue_upload_token, redeem_upload_token,
  record_report, micros,
}
use blankres.Server.Storage.{Blob, Storage, BlobWriter, begin, write, finish, abort}
use blankres.Server.Storage.{Disk}
use blankres.Text.{Text, codes, text_eq, strip_prefix}
use blankres.Text.Bytes.{Bytes}
use blankres.TextMap.{TextMap, insert}

-- An error is known by its status.
pub data ApiResult (A : Type 0) : Type 0 where
  ok : A → ApiResult A
  err : ℕ → ApiResult A

pub ApiResult-cases :
    {A : Type 0} (a : ApiResult A) → ((status : ℕ) × (a ≡ err status)) ⊎ ((x : A) × (a ≡ ok x))
ApiResult-cases (err status) = inl (status, refl)
ApiResult-cases (ok x) = inr (x, refl)

abbrev pub bad_request : ℕ
bad_request = 400

abbrev pub unauthorized : ℕ
unauthorized = 401

abbrev pub forbidden : ℕ
forbidden = 403

abbrev pub payload_too_large : ℕ
payload_too_large = 413

abbrev pub internal_error : ℕ
internal_error = 500

-- The headers that are read: `Authorization` and `X-Blankres-Upload-Token`, where they are text.
pub record Headers : Type 0 where
  pub authorization : Option Text
  pub upload_token : Option Text

abbrev bearer : Option Text → Option Text
bearer none = none
bearer (some value) = strip_prefix (codes "Bearer ") value

-- What `post_events` draws afresh for one event.
pub record Fresh : Type 0 where
  pub event_id : ℕ
  pub token : Text
  pub now : ℕ

-- One part of a multipart body: its chunks, and whether the stream broke off behind them.
pub record Part : Type 0 where
  pub name : Text
  pub chunks : List Bytes
  pub broken : Bool
  pub disk : Disk

-- `max_bytes` of `post_events`: the core's size with room for the logs, at most the configured
-- maximum.
abbrev pub limit_for : Config → Option ℕ → ℕ
limit_for config none = config.max_payload_bytes
limit_for config (some size) = min (min (size + 1024 * 1024) (2 ^ 64 - 1)) config.max_payload_bytes

abbrev pub push_directive :
    {M : Type 0}
    → PayloadDirective
    → ApiResult (List PayloadDirective) × Db M
    → ApiResult (List PayloadDirective) × Db M
push_directive d (err status, db) = (err status, db)
push_directive d (ok ds, db) = (ok (d ∷ ds), db)

module _ (sha256_hex : Bytes → Text) where
  abbrev known_token : Config → Option Text → Bool
  known_token config none = false
  known_token config (some presented) =
      any (λ known. text_eq known (hash_token sha256_hex presented)) config.token_hashes

  -- `authorize`: true where it returns `Ok`.
  unfoldable pub authorize : Headers → Config → Bool
  unfolding is_open hash_token text_eq strip_prefix
  authorize headers config =
      if is_open config then true else known_token config (bearer headers.authorization)

  module _ {M : Type 0} (show_id : ℕ → Text) where
    abbrev issued_directive :
        EventOutcome → Fresh → ℕ → Db M → Option (ℕ × Db M) → ApiResult PayloadDirective × Db M
    issued_directive o fresh max_bytes db none = (err internal_error, db)
    issued_directive o fresh max_bytes db (some (expires_at, db')) = (
      ok (record {
        id = show_id o.event_id;
        need_payload = true;
        upload_token = some fresh.token;
        max_bytes = some max_bytes;
        expires_at = some (expires_at / micros);
      }),
      db',
    )

    abbrev decided :
        Config
        → CrashEvent
        → Fresh
        → Db M
        → Option (EventOutcome × Db M)
        → ApiResult PayloadDirective × Db M
    decided config event fresh db none = (err internal_error, db)
    decided config event fresh db (some (o, db')) =
        if not o.need_payload
        then (ok (not_needed (show_id o.event_id)), db')
        else issued_directive o fresh (limit_for config event.core_size) db' (
            issue_upload_token db' (hash_token sha256_hex fresh.token) o.event_id
              event.signature.hash (limit_for config event.core_size) config.upload_token_ttl_secs
              fresh.now)

    -- One round of the loop of `post_events`.
    unfoldable pub answer_event :
        Config → CrashEvent → Fresh → Db M → ApiResult PayloadDirective × Db M
    unfolding record_event issue_upload_token hash_token not_needed
    answer_event config event fresh db =
        decided config event fresh db
          (record_event db event config.payloads_per_signature fresh.event_id)

    -- The loop of `post_events`: an error ends it, and what was written stays written.
    unfoldable pub answer_events :
        Config → List (CrashEvent × Fresh) → Db M → ApiResult (List PayloadDirective) × Db M
    unfolding answer_event
    answer_events config [] db = (ok [], db)
    answer_events config ((event, fresh) ∷ rest) db =
        let (answer, db') = answer_event config event fresh db in
        elim answer [
          | err status ↦ (err status, db')
          | ok d ↦ push_directive d (answer_events config rest db')
        ]

    unfoldable pub post_events :
        Config
        → Headers
        → List (CrashEvent × Fresh)
        → Db M
        → ApiResult (List PayloadDirective) × Db M
    unfolding authorize answer_events
    post_events config headers batch db =
        if not (authorize headers config)
        then (err unauthorized, db)
        else answer_events config batch db
