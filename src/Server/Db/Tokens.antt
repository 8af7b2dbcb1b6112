-- ===== src/Server/Db/Tokens.antt =====
-- The upload capability of crates/blankres-server/src/db.rs: `issue_upload_token` and
-- `redeem_upload_token`.
use blankres.Prelude.{
  ℕ, ◌+◌, ◌*◌, ◌<◌, Bool, true, false, not, ◌&&◌, Option, none, some, List, [], ◌∷◌, ◌≡◌, ◌≢◌, ◌∙◌,
  refl, arith, ltb, if◌then◌else◌, lt→ltb,
}
use blankres.Report.Event.{is_some}
use blankres.Server.Db.{
  Db, TokenRow, RedeemedToken, redeemed_of, has_token, is_redeemable, redeem_rows,
  redeem_upload_token, issue_upload_token, micros, refers,
}
use blankres.Text.{Text, text_eq}
use blankres.Text.Equality.{text_eq_iff, text_eq_refl}

-- The primary key of `upload_tokens`.
abbrev pub HasUniqueTokens : List TokenRow → Type 0
HasUniqueTokens [] = Unit
HasUniqueTokens (t ∷ ts) = (has_token t.token_hash ts ≡ false) × HasUniqueTokens ts

-- The row of a token, which is unused and unexpired, or not.
unfoldable pub find_token : Text → List TokenRow → Option TokenRow
find_token h [] = none
find_token h (t ∷ ts) = if text_eq t.token_hash h then some t else find_token h ts

abbrev pub is_live : ℕ → TokenRow → Bool
is_live now t = not (is_some t.redeemed_at) && ltb now t.expires_at

-- What a redemption is to answer, from the row of the token.
abbrev pub redemption : ℕ → Option TokenRow → Option RedeemedToken
redemption now none = none
redemption now (some t) = if is_live now t then some (redeemed_of t) else none

abbrev mark : ℕ → Option TokenRow → Option TokenRow
mark now none = none
mark now (some t) = some (if is_live now t then record t { redeemed_at = some now } else t)

redeem_rows-absent :
    (h : Text) (now : ℕ) (ts : List TokenRow)
    → has_token h ts ≡ false
    → redeem_rows h now ts ≡ (none, ts)
unfolding redeem_rows has_token is_redeemable
redeem_rows-absent h now [] e = refl
redeem_rows-absent h now (t ∷ ts) e = ground (arith, redeem_rows-absent h now ts)

find_token-absent :
    (h : Text) (ts : List TokenRow) → has_token h ts ≡ false → find_token h ts ≡ none
unfolding find_token has_token
find_token-absent h [] e = refl
find_token-absent h (t ∷ ts) e = ground (arith, find_token-absent h ts)

redeem_rows-redemption :
    (h : Text) (now : ℕ) (ts : List TokenRow)
    → HasUniqueTokens ts
    → (redeem_rows h now ts).0 ≡ redemption now (find_token h ts)
unfolding redeem_rows find_token is_redeemable
redeem_rows-redemption h now [] u = refl
redeem_rows-redemption h now (t ∷ ts) u = ground (
  arith,
  redeem_rows-redemption h now ts u.1,
  text_eq_iff t.token_hash h,
  u.0,
  redeem_rows-absent h now ts,
)

find_token-redeem_rows :
    (h k : Text) (now : ℕ) (ts : List TokenRow)
    → HasUniqueTokens ts
    → find_token k (redeem_rows h now ts).1
      ≡ (if text_eq h k then mark now (find_token k ts) else find_token k ts)
unfolding redeem_rows find_token is_redeemable
find_token-redeem_rows h k now [] u = ground arith
find_token-redeem_rows h k now (t ∷ ts) u = ground (
  arith,
  find_token-redeem_rows h k now ts u.1,
  text_eq_iff t.token_hash h,
  text_eq_iff t.token_hash k,
  text_eq_iff h k,
  u.0,
  redeem_rows-absent h now ts,
  find_token-absent h ts,
)

has_token-redeem_rows :
    (h k : Text) (now : ℕ) (ts : List TokenRow)
    → has_token k (redeem_rows h now ts).1 ≡ has_token k ts
unfolding redeem_rows has_token
has_token-redeem_rows h k now [] = refl
has_token-redeem_rows h k now (t ∷ ts) = ground (arith, has_token-redeem_rows h k now ts)

redeem_rows-HasUniqueTokens :
    (h : Text) (now : ℕ) (ts : List TokenRow)
    → HasUniqueTokens ts
    → HasUniqueTokens (redeem_rows h now ts).1
unfolding redeem_rows
redeem_rows-HasUniqueTokens h now [] u = tt
redeem_rows-HasUniqueTokens h now (t ∷ ts) u =
    ground
      (arith, redeem_rows-HasUniqueTokens h now ts u.1, has_token-redeem_rows h t.token_hash now ts)

redeem_rows-again :
    (h : Text) (now later : ℕ) (ts : List TokenRow) {r : RedeemedToken}
    → HasUniqueTokens ts
    → (redeem_rows h now ts).0 ≡ some r
    → (redeem_rows h later (redeem_rows h now ts).1).0 ≡ none
redeem_rows-again h now later ts u e =
    redeem_rows-redemption h later (redeem_rows h now ts).1 (redeem_rows-HasUniqueTokens h now ts u)
    ∙ ground (
      arith,
      find_token-redeem_rows h h now ts u,
      redeem_rows-redemption h now ts u,
      e,
      text_eq_refl h,
    )

redeem_rows-none :
    (h : Text) (now : ℕ) (ts : List TokenRow)
    → (redeem_rows h now ts).0 ≡ none
    → (redeem_rows h now ts).1 ≡ ts
unfolding redeem_rows
redeem_rows-none h now [] e = refl
redeem_rows-none h now (t ∷ ts) e = ground (arith, redeem_rows-none h now ts)

module _ {M : Type 0} where
  -- A redeemed token is refused over every database with the table that the redemption left, and the
  -- refusal changes nothing.
  pub redeem-again :
      (db db' : Db M) (h : Text) (now later : ℕ) {r : RedeemedToken}
      → HasUniqueTokens db.upload_tokens
      → (redeem_upload_token db h now).0 ≡ some r
      → db'.upload_tokens ≡ (redeem_upload_token db h now).1.upload_tokens
      → redeem_upload_token db' h later ≡ (none, db')
  unfolding redeem_upload_token
  redeem-again db db' h now later u e same =
      let again = redeem_rows-again h now later db.upload_tokens u e in
      ground
        (arith, again, same, redeem_rows-none h later (redeem_rows h now db.upload_tokens).1 again)

  -- Over a table with its primary key intact, a redemption succeeds exactly where the token is known,
  -- never redeemed before and not expired. It returns the event, signature and limit that the token
  -- was issued with.
  pub redeem_exact :
      (db : Db M) (h : Text) (now : ℕ)
      → HasUniqueTokens db.upload_tokens
      → (redeem_upload_token db h now).0 ≡ redemption now (find_token h db.upload_tokens)
  unfolding redeem_upload_token
  redeem_exact db h now u = redeem_rows-redemption h now db.upload_tokens u

  -- A token is redeemed at most once: behind a successful redemption every further one of the same
  -- token is refused, at whatever time; the redemption keeps the primary key intact and leaves the row
  -- of every other token as it was.
  pub redeem_once :
      (db : Db M) (h k : Text) (now later : ℕ) {r : RedeemedToken}
      → HasUniqueTokens db.upload_tokens
      → (redeem_upload_token db h now).0 ≡ some r
      → h ≢ k
      → HasUniqueTokens (redeem_upload_token db h now).1.upload_tokens
        × ((redeem_upload_token (redeem_upload_token db h now).1 h later).0 ≡ none)
        × (find_token k (redeem_upload_token db h now).1.upload_tokens
            ≡ find_token k db.upload_tokens)
  unfolding redeem_upload_token
  redeem_once db h k now later {r = r} u e ne =
      let ts = db.upload_tokens in
      let unique = redeem_rows-HasUniqueTokens h now ts u in
      (
        unique,
        redeem_rows-again h now later ts u e,
        ground (arith, find_token-redeem_rows h k now ts u, text_eq_iff h k, ne),
      )

  -- A token that was just issued for an event is redeemable once, before its expiry, for that event
  -- and signature and with that limit; the token is new, and the event and
  -- the signature are in the database.
  pub redeem-issue :
      (db : Db M) (h : Text) (event_id : ℕ) (signature : Text) (max_bytes ttl now later : ℕ)
      → HasUniqueTokens db.upload_tokens
      → has_token h db.upload_tokens ≡ false
      → refers db event_id signature ≡ true
      → later < now + ttl * micros
      → (db' : Db M) × (issue_upload_token db h event_id signature max_bytes ttl now
          ≡ some (now + ttl * micros, db'))
        × HasUniqueTokens db'.upload_tokens
        × ((redeem_upload_token db' h later).0
            ≡ some (record { event_id = event_id; signature = signature; max_bytes = max_bytes }))
  unfolding issue_upload_token redeem_upload_token redeem_rows is_redeemable
  redeem-issue db h event_id signature max_bytes ttl now later u fresh known early = (
    record db {
      upload_tokens =
          record {
            token_hash = h;
            event_id = event_id;
            signature = signature;
            max_bytes = max_bytes;
            expires_at = now + ttl * micros;
            redeemed_at = none;
          }
          ∷ db.upload_tokens;
    },
    rw (fresh, known),
    (fresh, u),
    rw (text_eq_refl h, lt→ltb _ _ early),
  )
