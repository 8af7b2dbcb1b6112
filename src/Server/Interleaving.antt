-- ===== src/Server/Interleaving.antt =====
-- Requests that run side by side in crates/blankres-server/src/routes.rs: each query of db.rs is one
-- step, and between the queries of one request those of others may run.
pub mod Counts
pub mod Overshoot
use blankres.Prelude.{
  ℕ, ◌≤◌, ◌<◌, min, ◌+◌, Bool, true, false, Option, none, some, List, [], ◌∷◌, ◌++◌, ◌≡◌,
  if◌then◌else◌,
}
use blankres.Report.Event.{CrashEvent}
use blankres.Server.Db.{
  Db, SignatureRow, EventRow, TokenRow, EventOutcome, RedeemedToken, record_event,
  issue_upload_token, redeem_upload_token, record_report, find_signature, put_signature,
}
use blankres.Text.{Text}

-- The database, the calls of `post_events` between `record_event` and `issue_upload_token`, by event
-- and signature, and the calls of `post_report` between `redeem_upload_token` and `record_report`.
pub record Server (M : Type 0) : Type 0 where
  pub db : Db M
  pub deciding : List (ℕ × Text)
  pub uploading : List RedeemedToken

-- `max_bytes` and `ttl` are what the configuration gives each token. The hash of a token stands for the
-- random token itself.
module _ {M : Type 0} (quota max_bytes ttl : ℕ) where
  pub data Step : Server M → Server M → Type 0 where
    -- `record_event` that wants the payload, and one that does not.
    wanted :
        (s : Server M) (e : CrashEvent) (id : ℕ) (o : EventOutcome) (db' : Db M)
        → record_event s.db e quota id ≡ some (o, db')
        → o.need_payload ≡ true
        → Step s (record s { db = db'; deciding = (id, e.signature.hash) ∷ s.deciding })
    declined :
        (s : Server M) (e : CrashEvent) (id : ℕ) (o : EventOutcome) (db' : Db M)
        → record_event s.db e quota id ≡ some (o, db')
        → o.need_payload ≡ false
        → Step s (record s { db = db' })
    -- `issue_upload_token`, or a request that ends before it.
    issue :
        (s : Server M) (before after : List (ℕ × Text)) (id : ℕ) (sig : Text) (h : Text)
        (now expires : ℕ) (db' : Db M)
        → s.deciding ≡ before ++ (id, sig) ∷ after
        → issue_upload_token s.db h id sig max_bytes ttl now ≡ some (expires, db')
        → Step s (record s { db = db'; deciding = before ++ after })
    give_up :
        (s : Server M) (before after : List (ℕ × Text)) (id : ℕ) (sig : Text)
        → s.deciding ≡ before ++ (id, sig) ∷ after
        → Step s (record s { deciding = before ++ after })
    -- `redeem_upload_token` that succeeds.
    redeem :
        (s : Server M) (h : Text) (now : ℕ) (r : RedeemedToken) (db' : Db M)
        → redeem_upload_token s.db h now ≡ (some r, db')
        → Step s (record s { db = db'; uploading = r ∷ s.uploading })
    -- `record_report` of an upload within its limit, with metadata of at least one byte, or an upload
    -- that fails before it.
    store :
        (s : Server M) (before after : List RedeemedToken) (r : RedeemedToken) (id total : ℕ)
        (metadata blobs : M) (db' : Db M)
        → s.uploading ≡ before ++ r ∷ after
        → 0 < total
        → total ≤ min r.max_bytes max_bytes
        → record_report s.db id r.event_id r.signature total metadata blobs ≡ some db'
        → Step s (record s { db = db'; uploading = before ++ after })
    fail :
        (s : Server M) (before after : List RedeemedToken) (r : RedeemedToken)
        → s.uploading ≡ before ++ r ∷ after
        → Step s (record s { uploading = before ++ after })
    -- An operator marks a signature.
    suppress :
        (s : Server M) (h : Text) (b : Bool) (r : SignatureRow)
        → find_signature h s.db.signatures ≡ some r
        → Step s (record s {
          db = record s.db {
            signatures = put_signature (record r { suppressed = b }) s.db.signatures;
          };
        })

  pub data Reach (s : Server M) : Server M → Type 0 where
    here : Reach s s
    next : {t u : Server M} → Reach s t → Step t u → Reach s u

abbrev pub empty_db : {M : Type 0} → Db M
empty_db = record { signatures = []; events = []; upload_tokens = []; reports = [] }

abbrev pub started : {M : Type 0} → Server M
started = record { db = empty_db; deciding = []; uploading = [] }
