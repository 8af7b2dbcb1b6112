-- ===== src/Server/Interleaving/Overshoot.antt =====
-- The quota of crates/blankres-server/src/db.rs under a crash storm: `record_event` compares it with
-- the payloads that are stored, not with those that were asked for.
use blankres.Prelude.{
  ℕ, zero, suc, ◌+◌, ◌*◌, ◌≤◌, ◌<◌, true, false, Option, none, some, List, [], ◌∷◌, ◌≡◌,
}
use blankres.Report.Event.{CrashEvent}
use blankres.Server.Db.{
  Db, SignatureRow, EventRow, TokenRow, ReportRow, EventOutcome, RedeemedToken, find_signature,
  put_signature, upsert_row, micros,
}
use blankres.Server.Interleaving.{Server}
use blankres.Text.{Text, text_eq}

-- One event from each of many machines, recorded, its token issued and redeemed, the upload under way.
module _ (e : CrashEvent) (token_hash : ℕ → Text)
    (distinct : (m k : ℕ) → k < m → text_eq (token_hash k) (token_hash m) ≡ false)
    (max_bytes ttl : ℕ) where
  abbrev sigs : ℕ → List SignatureRow
  sigs zero = []
  sigs (suc n) = put_signature (upsert_row e (find_signature e.signature.hash (sigs n))) (sigs n)

  abbrev events_of : ℕ → List EventRow
  events_of zero = []
  events_of (suc n) = record { id = n; event = e; payload_wanted = true } ∷ events_of n

  abbrev token : ℕ → Option ℕ → TokenRow
  token n redeemed_at = record {
    token_hash = token_hash n;
    event_id = n;
    signature = e.signature.hash;
    max_bytes = max_bytes;
    expires_at = 0 + ttl * micros;
    redeemed_at = redeemed_at;
  }

  abbrev tokens : ℕ → List TokenRow
  tokens zero = []
  tokens (suc n) = token n (some 0) ∷ tokens n

  abbrev upload : ℕ → RedeemedToken
  upload n = record { event_id = n; signature = e.signature.hash; max_bytes = max_bytes }

  abbrev uploads : ℕ → List RedeemedToken
  uploads zero = []
  uploads (suc n) = upload n ∷ uploads n

module _ {M : Type 0} (json : M) (e : CrashEvent) (token_hash : ℕ → Text)
    (distinct : (m k : ℕ) → k < m → text_eq (token_hash k) (token_hash m) ≡ false)
    (max_bytes ttl total_bytes : ℕ) where
  abbrev report_row : ℕ → ℕ → ReportRow M
  report_row id n = record {
    id = id;
    event_id = n;
    signature = e.signature.hash;
    total_bytes = total_bytes;
    metadata = json;
    blobs = json;
  }

  -- `n` uploads are under way, out of `total`.
  abbrev storm : List SignatureRow → ℕ → ℕ → List (ReportRow M) → Server M
  storm rs total n stored = record {
    db = record {
      signatures = rs;
      events = events_of e token_hash distinct max_bytes ttl total;
      upload_tokens = tokens e token_hash distinct max_bytes ttl total;
      reports = stored;
    };
    deciding = [];
    uploading = uploads e token_hash distinct max_bytes ttl n;
  }

  module _ (quota : ℕ) (positive : 0 < quota) (lives : 0 < ttl) (some_bytes : 0 < total_bytes)
      (fits : total_bytes ≤ max_bytes) (has_core : e.core_available ≡ true) where
    abbrev recorded : ℕ → Db M
    recorded n = record {
      signatures = sigs e token_hash distinct max_bytes ttl (suc n);
      events = events_of e token_hash distinct max_bytes ttl (suc n);
      upload_tokens = tokens e token_hash distinct max_bytes ttl n;
      reports = [];
    }

    abbrev issued : ℕ → Db M
    issued n = record {
      signatures = sigs e token_hash distinct max_bytes ttl (suc n);
      events = events_of e token_hash distinct max_bytes ttl (suc n);
      upload_tokens =
          token e token_hash distinct max_bytes ttl n none
          ∷ tokens e token_hash distinct max_bytes ttl n;
      reports = [];
    }

    outcome_of : ℕ → EventOutcome
    outcome_of n =
        let row =
          upsert_row e
            (find_signature e.signature.hash (sigs e token_hash distinct max_bytes ttl n)) in
        record {
          event_id = n;
          need_payload = true;
          signature_events = row.events;
          signature_payloads = row.payloads;
        }
