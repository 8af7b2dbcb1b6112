-- ===== src/Server/Db.antt =====
-- crates/blankres-server/src/db.rs over the schema of crates/blankres-server/migrations: the four
-- tables, and each query as a function on them. A transaction is one step, and
-- `none` is its error, with nothing changed: a key that is there already, or a reference to a row that is
-- not; other errors of the database are left out. Columns that only the dashboard reads are left out.
-- `max_bytes` is the `u64` that passes through the column as an `i64` of the same bits.
pub mod Decision
pub mod Tokens
use blankres.Prelude.{
  ℕ, suc, ◌+◌, Bool, true, false, not, ◌&&◌, Option, none, some, List, [], ◌∷◌, ltb, if◌then◌else◌,
  ◌==◌, ◌||◌, ◌*◌,
}
use blankres.Report.Event.{CrashEvent, Precision, is_some}
use blankres.Text.{Text, text_eq}

pub record SignatureRow : Type 0 where
  pub hash : Text
  pub precision : Precision
  pub events : ℕ
  pub payloads : ℕ
  pub suppressed : Bool
  pub executable : Text
  pub package_name : Option Text
  pub frames : List Text

-- A row of `events`: the event is kept whole. An identifier is a number here.
pub record EventRow : Type 0 where
  pub id : ℕ
  pub event : CrashEvent
  pub payload_wanted : Bool

pub record TokenRow : Type 0 where
  pub token_hash : Text
  pub event_id : ℕ
  pub signature : Text
  pub max_bytes : ℕ
  pub expires_at : ℕ
  pub redeemed_at : Option ℕ

-- `M` is the type of JSON values, which the database stores unread.
pub record ReportRow (M : Type 0) : Type 0 where
  pub id : ℕ
  pub event_id : ℕ
  pub signature : Text
  pub total_bytes : ℕ
  pub metadata : M
  pub blobs : M

pub record Db (M : Type 0) : Type 0 where
  pub signatures : List SignatureRow
  pub events : List EventRow
  pub upload_tokens : List TokenRow
  pub reports : List (ReportRow M)

pub record EventOutcome : Type 0 where
  pub event_id : ℕ
  pub need_payload : Bool
  pub signature_events : ℕ
  pub signature_payloads : ℕ

-- SELECT ... FROM signatures WHERE hash = $1, as in `fetch_signature`.
unfoldable pub find_signature : Text → List SignatureRow → Option SignatureRow
unfolding text_eq
find_signature hash [] = none
find_signature hash (r ∷ rs) = if text_eq r.hash hash then some r else find_signature hash rs

-- The row that the upsert of `record_event` leaves and returns.
abbrev pub upsert_row : CrashEvent → Option SignatureRow → SignatureRow
upsert_row e none = record {
  hash = e.signature.hash;
  precision = e.signature.precision;
  events = 1;
  payloads = 0;
  suppressed = false;
  executable = e.executable;
  package_name = e.package_info.name;
  frames = e.signature.frames;
}
upsert_row e (some r) = record r { events = r.events + 1 }

-- UPDATE by primary key, or INSERT.
unfoldable pub put_signature : SignatureRow → List SignatureRow → List SignatureRow
unfolding text_eq
put_signature row [] = row ∷ []
put_signature row (r ∷ rs) =
    let rest = put_signature row rs in if text_eq r.hash row.hash then row ∷ rs else r ∷ rest

-- The primary keys: an INSERT of a key that is there is an error.
unfoldable pub has_event : ℕ → List EventRow → Bool
has_event id [] = false
has_event id (r ∷ rs) = r.id == id || has_event id rs

unfoldable pub has_token : Text → List TokenRow → Bool
unfolding text_eq
has_token h [] = false
has_token h (t ∷ ts) = text_eq t.token_hash h || has_token h ts

unfoldable pub has_report : {M : Type 0} → ℕ → List (ReportRow M) → Bool
has_report id [] = false
has_report id (r ∷ rs) = r.id == id || has_report id rs

-- The foreign keys: a token and a report refer to an event and a signature that are there.
unfoldable pub has_signature : Text → List SignatureRow → Bool
unfolding text_eq
has_signature h [] = false
has_signature h (r ∷ rs) = text_eq r.hash h || has_signature h rs

abbrev pub refers : {M : Type 0} → Db M → ℕ → Text → Bool
refers db event_id signature = has_event event_id db.events && has_signature signature db.signatures

-- The WHERE clause of `redeem_upload_token`.
unfoldable pub is_redeemable : Text → ℕ → TokenRow → Bool
unfolding text_eq
is_redeemable token_hash now t =
    text_eq t.token_hash token_hash && not (is_some t.redeemed_at) && ltb now t.expires_at

pub record RedeemedToken : Type 0 where
  pub event_id : ℕ
  pub signature : Text
  pub max_bytes : ℕ

abbrev pub redeemed_of : TokenRow → RedeemedToken
redeemed_of t = record { event_id = t.event_id; signature = t.signature; max_bytes = t.max_bytes }

-- The UPDATE of `redeem_upload_token`, and the row that it returns.
abbrev kept_row :
    TokenRow → Option RedeemedToken × List TokenRow → Option RedeemedToken × List TokenRow
kept_row t (r, ts) = (r, t ∷ ts)

unfoldable pub redeem_rows : Text → ℕ → List TokenRow → Option RedeemedToken × List TokenRow
redeem_rows h now [] = (none, [])
redeem_rows h now (t ∷ ts) =
    let rest = kept_row t (redeem_rows h now ts) in
    if is_redeemable h now t
    then (some (redeemed_of t), record t { redeemed_at = some now } ∷ ts)
    else rest

-- UPDATE signatures SET payloads = payloads + 1 WHERE hash = $1
unfoldable pub count_payload : Text → List SignatureRow → List SignatureRow
unfolding text_eq
count_payload hash [] = []
count_payload hash (r ∷ rs) =
    let rest = count_payload hash rs in
    if text_eq r.hash hash then record r { payloads = r.payloads + 1 } ∷ rest else r ∷ rest

abbrev pub micros : ℕ
micros = 1_000_000

module _ {M : Type 0} where
  -- `record_event`; the fresh identifier is an argument. `none` is the error of the database.
  unfoldable pub record_event : Db M → CrashEvent → ℕ → ℕ → Option (EventOutcome × Db M)
  unfolding find_signature put_signature has_event
  record_event db event quota event_id =
      let row = upsert_row event (find_signature event.signature.hash db.signatures) in
      let need_payload = event.core_available && not row.suppressed && ltb row.payloads quota in
      if has_event event_id db.events
      then none
      else some (
        record {
          event_id = event_id;
          need_payload = need_payload;
          signature_events = row.events;
          signature_payloads = row.payloads;
        },
        record db {
          signatures = put_signature row db.signatures;
          events =
              record { id = event_id; event = event; payload_wanted = need_payload } ∷ db.events;
        },
      )

  -- `issue_upload_token`: the expiry, and the table with the new row. Times are in microseconds.
  unfoldable pub issue_upload_token : Db M → Text → ℕ → Text → ℕ → ℕ → ℕ → Option (ℕ × Db M)
  unfolding has_token has_event has_signature
  issue_upload_token db token_hash event_id signature max_bytes ttl_secs now =
      let expires_at = now + ttl_secs * micros in
      if has_token token_hash db.upload_tokens || not (refers db event_id signature)
      then none
      else some (
        expires_at,
        record db {
          upload_tokens =
              record {
                token_hash = token_hash;
                event_id = event_id;
                signature = signature;
                max_bytes = max_bytes;
                expires_at = expires_at;
                redeemed_at = none;
              }
              ∷ db.upload_tokens;
        },
      )

  unfoldable pub redeem_upload_token : Db M → Text → ℕ → Option RedeemedToken × Db M
  unfolding redeem_rows is_redeemable
  redeem_upload_token db token_hash now =
      let (redeemed, rows) = redeem_rows token_hash now db.upload_tokens in
      (redeemed, record db { upload_tokens = rows })

  unfoldable pub record_report : Db M → ℕ → ℕ → Text → ℕ → M → M → Option (Db M)
  unfolding has_report has_event has_signature count_payload
  record_report db report_id event_id signature total_bytes metadata blobs =
      if has_report report_id db.reports || not (refers db event_id signature)
      then none
      else some (record db {
        reports =
            record {
              id = report_id;
              event_id = event_id;
              signature = signature;
              total_bytes = total_bytes;
              metadata = metadata;
              blobs = blobs;
            }
            ∷ db.reports;
        signatures = count_payload signature db.signatures;
      })

  unfoldable pub find_report : ℕ → List (ReportRow M) → Option (ReportRow M)
  find_report id [] = none
  find_report id (r ∷ rs) = if r.id == id then some r else find_report id rs

  -- `fetch_report` and `fetch_signature`, before the print as JSON.
  unfoldable pub fetch_report : Db M → ℕ → Option (ReportRow M)
  unfolding find_report
  fetch_report db id = find_report id db.reports

  unfoldable pub fetch_signature : Db M → Text → Option SignatureRow
  unfolding find_signature
  fetch_signature db hash = find_signature hash db.signatures
