-- ===== src/Server/Db/Decision.antt =====
-- `record_event` of crates/blankres-server/src/db.rs: the decision that the two stages rest on.
use blankres.Prelude.{
  ℕ, ◌+◌, ◌<◌, Bool, true, false, not, ◌&&◌, Option, none, some, List, [], ◌∷◌, ◌≡◌, ◌≢◌, ◌∙◌, ◌↔◌,
  Option-cases, inl, inr, refl, arith, ltb, if◌then◌else◌,
}
use blankres.Report.Event.{CrashEvent}
use blankres.Server.Db.{
  Db, SignatureRow, EventOutcome, find_signature, put_signature, upsert_row, record_event,
  fetch_signature, has_event,
}
use blankres.Text.{Text, text_eq}
use blankres.Text.Equality.{text_eq_iff, text_eq_refl}

-- What is stored under a signature, with the defaults of the schema for one that is new.
abbrev pub stored_payloads : Option SignatureRow → ℕ
stored_payloads none = 0
stored_payloads (some r) = r.payloads

abbrev pub stored_events : Option SignatureRow → ℕ
stored_events none = 0
stored_events (some r) = r.events

abbrev pub stored_suppressed : Option SignatureRow → Bool
stored_suppressed none = false
stored_suppressed (some r) = r.suppressed

pub find-put_signature :
    (row : SignatureRow) (h : Text) (rs : List SignatureRow)
    → find_signature h (put_signature row rs)
      ≡ (if text_eq row.hash h then some row else find_signature h rs)
unfolding find_signature put_signature
find-put_signature row h [] = refl
find-put_signature row h (r ∷ rs) = ground (
  arith,
  find-put_signature row h rs,
  text_eq_iff r.hash row.hash,
  text_eq_iff r.hash h,
  text_eq_iff row.hash h,
)

-- A row that is found stands under its key.
pub hash-find_signature :
    (h : Text) (rs : List SignatureRow) {r : SignatureRow}
    → find_signature h rs ≡ some r
    → r.hash ≡ h
unfolding find_signature
hash-find_signature h [] e = cc
hash-find_signature h (s ∷ rs) {r = r} e =
    ground (arith, hash-find_signature h rs {r = r}, text_eq_iff s.hash h)

hash-upsert_row :
    (e : CrashEvent) (rs : List SignatureRow)
    → (upsert_row e (find_signature e.signature.hash rs)).hash ≡ e.signature.hash
hash-upsert_row e rs = elim (Option-cases (find_signature e.signature.hash rs)) [
  | inl new ↦ rw new
  | inr (r, old) ↦ rw old (hash-find_signature e.signature.hash rs old)
]

-- The table behind the upsert, at its own key and at any other.
abbrev upserted : CrashEvent → List SignatureRow → List SignatureRow
upserted e rs = put_signature (upsert_row e (find_signature e.signature.hash rs)) rs

pub find-upserted :
    (e : CrashEvent) (rs : List SignatureRow) (h : Text)
    → find_signature h (upserted e rs) ≡ (
        if text_eq e.signature.hash h
        then some (upsert_row e (find_signature e.signature.hash rs))
        else find_signature h rs)
find-upserted e rs h =
    find-put_signature (upsert_row e (find_signature e.signature.hash rs)) h rs
    ∙ rw (hash-upsert_row e rs)

find-upserted_self :
    (e : CrashEvent) (rs : List SignatureRow)
    → find_signature e.signature.hash (upserted e rs)
      ≡ some (upsert_row e (find_signature e.signature.hash rs))
find-upserted_self e rs = find-upserted e rs e.signature.hash ∙ rw (text_eq_refl e.signature.hash)

find-upserted_ne :
    (e : CrashEvent) (rs : List SignatureRow) (h : Text)
    → h ≢ e.signature.hash
    → find_signature h (upserted e rs) ≡ find_signature h rs
find-upserted_ne e rs h ne =
    ground (arith, find-upserted e rs h, text_eq_iff e.signature.hash h, ne)

pub upsert_counters :
    (e : CrashEvent) (stored : Option SignatureRow)
    → ((upsert_row e stored).events ≡ stored_events stored + 1)
      × ((upsert_row e stored).payloads ≡ stored_payloads stored)
      × ((upsert_row e stored).suppressed ≡ stored_suppressed stored)
upsert_counters e none = (omega arith, refl, refl)
upsert_counters e (some r) = (refl, refl, refl)

decision_iff :
    (available suppressed : Bool) (payloads quota : ℕ)
    → ((available && not suppressed && ltb payloads quota) ≡ true)
      ↔ ((available ≡ true) × (suppressed ≡ false) × (payloads < quota))
decision_iff available suppressed payloads quota = ground arith

module _ {M : Type 0} where
  -- Recording an event under a fresh identifier asks for its payload exactly where the machine has
  -- a core, no operator suppressed the signature, and fewer payloads than the quota are stored. The
  -- signature's count of events goes up by one, its other counters and all other signatures stay.
  pub record_event_decision :
      (db : Db M) (event : CrashEvent) (quota id : ℕ) (other : Text)
      → has_event id db.events ≡ false
      → other ≢ event.signature.hash
      → (outcome : EventOutcome) × (db' : Db M) × (record_event db event quota id
          ≡ some (outcome, db'))
        × ((outcome.need_payload ≡ true) ↔ (
            (event.core_available ≡ true)
            × (stored_suppressed (fetch_signature db event.signature.hash) ≡ false)
            × (stored_payloads (fetch_signature db event.signature.hash) < quota)))
        × (stored_events (fetch_signature db' event.signature.hash)
            ≡ stored_events (fetch_signature db event.signature.hash) + 1)
        × (stored_payloads (fetch_signature db' event.signature.hash)
            ≡ stored_payloads (fetch_signature db event.signature.hash))
        × (stored_suppressed (fetch_signature db' event.signature.hash)
            ≡ stored_suppressed (fetch_signature db event.signature.hash))
        × (fetch_signature db' other ≡ fetch_signature db other)
  unfolding record_event fetch_signature
  record_event_decision db event quota id other fresh ne =
      let rs = db.signatures in
      let stored = find_signature event.signature.hash rs in
      let (events_up, payloads_kept, suppressed_kept) = upsert_counters event stored in
      let row = upsert_row event stored in
      let need = event.core_available && not row.suppressed && ltb row.payloads quota in
      (
        record {
          event_id = id;
          need_payload = need;
          signature_events = row.events;
          signature_payloads = row.payloads;
        },
        record db {
          signatures = put_signature row rs;
          events = record { id = id; event = event; payload_wanted = need } ∷ db.events;
        },
        rw fresh,
        rw (suppressed_kept, payloads_kept) (decision_iff event.core_available _ _ quota),
        rw (find-upserted_self event rs) events_up,
        rw (find-upserted_self event rs) payloads_kept,
        rw (find-upserted_self event rs) suppressed_kept,
        find-upserted_ne event rs other ne,
      )
