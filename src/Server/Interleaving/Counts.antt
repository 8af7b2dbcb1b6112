-- ===== src/Server/Interleaving/Counts.antt =====
-- Counting by signature: what the counters of crates/blankres-server/src/db.rs stand for, whatever the
-- order in which requests interleave.
use blankres.Prelude.{
  one_if, count, count-middle, ℕ, ◌+◌, ◌≤◌, Bool, true, false, ◌&&◌, some, List, [], ◌∷◌, ◌≡◌, refl,
  arith, ap,
}
use blankres.Report.Event.{CrashEvent, is_some}
use blankres.Server.Db.{
  Db, SignatureRow, TokenRow, RedeemedToken, record_event, has_signature, issue_upload_token,
  redeem_upload_token, record_report, find_signature, put_signature, count_payload, upsert_row,
  redeem_rows, is_redeemable,
}
use blankres.Server.Db.Decision.{
  stored_payloads, find-upserted, find-put_signature, hash-find_signature,
}
use blankres.Server.Interleaving.{
  Server, Step, wanted, declined, issue, give_up, redeem, store, fail, suppress, Reach, here, next,
  started,
}
use blankres.Text.{Text, text_eq}
use blankres.Text.Equality.{text_eq_iff}

module _ {M : Type 0} (h : Text) where
  abbrev pub reports_of : Db M → ℕ
  reports_of db = count (λ r. text_eq r.signature h) db.reports

  abbrev pub wanted_of : Db M → ℕ
  wanted_of db = count (λ r. r.payload_wanted && text_eq r.event.signature.hash h) db.events

  abbrev pub tokens_of : Db M → ℕ
  tokens_of db = count (λ t. text_eq t.signature h) db.upload_tokens

  abbrev pub redeemed_of_signature : Db M → ℕ
  redeemed_of_signature db =
      count (λ t. is_some t.redeemed_at && text_eq t.signature h) db.upload_tokens

  abbrev pub deciding_of : Server M → ℕ
  deciding_of s = count (λ d. text_eq d.1 h) s.deciding

  abbrev pub uploading_of : Server M → ℕ
  uploading_of s = count (λ r. text_eq r.signature h) s.uploading

  -- The counter is the number of reports; each report and each upload under way has its own redeemed
  -- token, and each token and each one about to be issued its own event.
  pub record Inv (s : Server M) : Type 0 where
    pub counted : stored_payloads (find_signature h s.db.signatures) ≡ reports_of s.db
    pub backed : reports_of s.db + uploading_of s ≤ redeemed_of_signature s.db
    pub asked : tokens_of s.db + deciding_of s ≤ wanted_of s.db

-- What each query does to the tables that are counted.
abbrev payloads_at : Text → List SignatureRow → ℕ
payloads_at h rs = stored_payloads (find_signature h rs)

payloads_at-upserted :
    (h : Text) (e : CrashEvent) (rs : List SignatureRow)
    → payloads_at h (put_signature (upsert_row e (find_signature e.signature.hash rs)) rs)
      ≡ payloads_at h rs
payloads_at-upserted h e rs = ground (
  arith,
  find-upserted e rs h,
  text_eq_iff e.signature.hash h,
  find_signature e.signature.hash rs,
)

payloads_at-count_payload_ne :
    (h sig : Text) (rs : List SignatureRow)
    → text_eq sig h ≡ false
    → payloads_at h (count_payload sig rs) ≡ payloads_at h rs
unfolding find_signature count_payload
payloads_at-count_payload_ne h sig [] ne = refl
payloads_at-count_payload_ne h sig (r ∷ rs) ne = ground (
  arith,
  payloads_at-count_payload_ne h sig rs ne,
  text_eq_iff r.hash sig,
  text_eq_iff r.hash h,
  text_eq_iff sig h,
)

payloads_at-count_payload :
    (h sig : Text) (rs : List SignatureRow)
    → has_signature sig rs ≡ true
    → payloads_at h (count_payload sig rs) ≡ one_if (text_eq sig h) + payloads_at h rs
unfolding has_signature find_signature count_payload
payloads_at-count_payload h sig [] k = cc
payloads_at-count_payload h sig (r ∷ rs) k = ground (
  arith,
  payloads_at-count_payload h sig rs,
  payloads_at-count_payload_ne h sig rs,
  text_eq_iff r.hash sig,
  text_eq_iff r.hash h,
  text_eq_iff sig h,
)

payloads_at-suppress :
    (h k : Text) (b : Bool) (r : SignatureRow) (rs : List SignatureRow)
    → find_signature k rs ≡ some r
    → payloads_at h (put_signature (record r { suppressed = b }) rs) ≡ payloads_at h rs
payloads_at-suppress h k b r rs e = ground (
  arith,
  find-put_signature (record r { suppressed = b }) h rs,
  hash-find_signature k rs e,
  text_eq_iff r.hash h,
  e,
)

redeem_rows_counts :
    (h k : Text) (now : ℕ) (ts : List TokenRow) {r : RedeemedToken}
    → (redeem_rows k now ts).0 ≡ some r
    → (count (λ t. text_eq t.signature h) (redeem_rows k now ts).1
        ≡ count (λ t. text_eq t.signature h) ts)
      × (count (λ t. is_some t.redeemed_at && text_eq t.signature h) (redeem_rows k now ts).1
          ≡ one_if (text_eq r.signature h)
            + count (λ t. is_some t.redeemed_at && text_eq t.signature h) ts)
unfolding redeem_rows is_redeemable count
redeem_rows_counts h k now [] e = cc
redeem_rows_counts h k now (t ∷ ts) {r = r} e =
    ground (arith, redeem_rows_counts h k now ts {r = r})

-- The invariant holds at the start, and every step keeps it.
module _ {M : Type 0} (quota max_bytes ttl : ℕ) (h : Text) where
  Inv-started : Inv h (started {M = M})
  unfolding count find_signature
  Inv-started = record { counted = refl; backed = omega arith; asked = omega arith }

  Step-Inv : {s t : Server M} → Step quota max_bytes ttl s t → Inv h s → Inv h t
  unfolding count record_event issue_upload_token redeem_upload_token record_report
  Step-Inv (wanted s e id o db' r n) v = ground (arith, payloads_at-upserted h e s.db.signatures)
  Step-Inv (declined s e id o db' r n) v = ground (arith, payloads_at-upserted h e s.db.signatures)
  Step-Inv (issue s before after id sig k now expires db' d r) v =
      ground (arith, count-middle (λ d. text_eq d.1 h) before (id, sig) after, d)
  Step-Inv (give_up s before after id sig d) v =
      ground (arith, count-middle (λ d. text_eq d.1 h) before (id, sig) after, d)
  Step-Inv (redeem s k now r db' e) v =
      ground (arith, redeem_rows_counts h k now s.db.upload_tokens (ap (λ p. p.0) e), e)
  Step-Inv (store s before after r id total metadata blobs db' u positive within e) v = ground (
    arith,
    count-middle (λ r. text_eq r.signature h) before r after,
    u,
    payloads_at-count_payload h r.signature s.db.signatures,
  )
  Step-Inv (fail s before after r u) v =
      ground (arith, count-middle (λ r. text_eq r.signature h) before r after, u)
  Step-Inv (suppress s k b r e) v = ground (arith, payloads_at-suppress h k b r s.db.signatures e)

  pub Reach-Inv : {s : Server M} → Reach quota max_bytes ttl started s → Inv h s
  Reach-Inv here = Inv-started
  Reach-Inv (next r st) = Step-Inv st (Reach-Inv r)
