-- ===== src/Server/Routes/Events.antt =====
-- The answer to a batch of events: crates/blankres-server/src/routes.rs, `post_events`.
use blankres.Prelude.{
  ℕ, Bool, true, false, not, ◌&&◌, Option, none, some, List, [], ◌∷◌, ◌≡◌, ◌⊎◌, inl, inr, refl,
  arith, length, ltb, if◌then◌else◌, Bool-cases,
}
use blankres.Report.Event.{CrashEvent, PayloadDirective, not_needed, is_some}
use blankres.Server.Config.{Config}
use blankres.Server.Db.{Db, record_event, issue_upload_token}
use blankres.Server.Routes.{
  ApiResult, ApiResult-cases, ok, err, Headers, Fresh, limit_for, authorize, unauthorized,
  answer_event, answer_events, push_directive, post_events,
}
use blankres.Text.{Text}
use blankres.Text.Bytes.{Bytes}

abbrev at_most : ℕ → Option ℕ → Bool
at_most limit none = false
at_most limit (some n) = not (ltb limit n)

-- A directive that asks for a payload carries a token, an expiry and a limit within the maximum; one
-- that does not carries none of them.
abbrev pub is_well_formed : ℕ → PayloadDirective → Bool
is_well_formed limit d =
    if d.need_payload
    then is_some d.upload_token && is_some d.expires_at && at_most limit d.max_bytes
    else not (is_some d.upload_token) && not (is_some d.expires_at) && not (is_some d.max_bytes)

abbrev directive_ok : ℕ → ApiResult PayloadDirective → Bool
directive_ok limit (err status) = true
directive_ok limit (ok d) = is_well_formed limit d

abbrev pub all_well_formed : ℕ → List PayloadDirective → Bool
all_well_formed limit [] = true
all_well_formed limit (d ∷ ds) = is_well_formed limit d && all_well_formed limit ds

limit_for-le :
    (config : Config) (size : Option ℕ)
    → ltb config.max_payload_bytes (limit_for config size) ≡ false
limit_for-le config none = ground arith
limit_for-le config (some size) = ground arith

abbrev pub OneEach : Config → List (CrashEvent × Fresh) → ApiResult (List PayloadDirective) → Type 0
OneEach config batch (err status) = Unit
OneEach config batch (ok ds) =
    (length ds ≡ length batch) × (all_well_formed config.max_payload_bytes ds ≡ true)

push_directive-OneEach :
    {M : Type 0} (config : Config) (d : PayloadDirective) (event : CrashEvent × Fresh)
    (rest : List (CrashEvent × Fresh)) (x : ApiResult (List PayloadDirective) × Db M)
    → is_well_formed config.max_payload_bytes d ≡ true
    → OneEach config rest x.0
    → OneEach config (event ∷ rest) (push_directive d x).0
push_directive-OneEach config d event rest (err status, db) h k = tt
push_directive-OneEach config d event rest (ok ds, db) h k = ground arith

module _ {M : Type 0} (sha256_hex : Bytes → Text) (show_id : ℕ → Text) where
  answer_event-ok :
      (config : Config) (event : CrashEvent) (fresh : Fresh) (db : Db M)
      → directive_ok config.max_payload_bytes
          (answer_event sha256_hex show_id config event fresh db).0
        ≡ true
  unfolding answer_event record_event issue_upload_token not_needed
  answer_event-ok config event fresh db = ground (arith, limit_for-le config event.core_size)

  answer_events-cons :
      (config : Config) (event : CrashEvent) (fresh : Fresh) (rest : List (CrashEvent × Fresh))
      (db : Db M)
      → answer_events sha256_hex show_id config ((event, fresh) ∷ rest) db ≡ (
          let (answer, db') = answer_event sha256_hex show_id config event fresh db in
          elim answer [
            | err status ↦ (err status, db')
            | ok d ↦ push_directive d (answer_events sha256_hex show_id config rest db')
          ])
  unfolding answer_events
  answer_events-cons config event fresh rest db = refl

  answer_events-OneEach :
      (config : Config) (batch : List (CrashEvent × Fresh)) (db : Db M)
      → OneEach config batch (answer_events sha256_hex show_id config batch db).0
  unfolding answer_events
  answer_events-OneEach config [] db = (refl, refl)
  answer_events-OneEach config ((event, fresh) ∷ rest) db =
      let (answer, db') = answer_event sha256_hex show_id config event fresh db in
      elim (ApiResult-cases (answer_event sha256_hex show_id config event fresh db).0) [
        | inl (status, e) ↦ rw (answer_events-cons config event fresh rest db, e) tt
        | inr (d, e) ↦
            rw (answer_events-cons config event fresh rest db, e)
              (push_directive-OneEach config d (event, fresh) rest
                (answer_events sha256_hex show_id config rest db')
                (ground (arith, answer_event-ok config event fresh db, e))
                (answer_events-OneEach config rest db'))
      ]

  post_events_lem :
      (config : Config) (headers : Headers) (batch : List (CrashEvent × Fresh)) (db : Db M)
      → post_events sha256_hex show_id config headers batch db ≡ (
          if not (authorize sha256_hex headers config)
          then (err unauthorized, db)
          else answer_events sha256_hex show_id config batch db)
  unfolding post_events
  post_events_lem config headers batch db = refl

  -- A batch that is answered gets one directive for each of its events, every one of them well formed
  -- and within the configured maximum; a request that is not authorised is answered 401
  -- and changes nothing.
  pub post_events_answers :
      (config : Config) (headers : Headers) (batch : List (CrashEvent × Fresh)) (db : Db M)
      → OneEach config batch (post_events sha256_hex show_id config headers batch db).0
        × ((authorize sha256_hex headers config ≡ true)
            ⊎ (post_events sha256_hex show_id config headers batch db ≡ (err unauthorized, db)))
  post_events_answers config headers batch db =
      elim (Bool-cases (authorize sha256_hex headers config)) [
        | inl e ↦ (
          rw (post_events_lem config headers batch db, e) (answer_events-OneEach config batch db),
          inl e,
        )
        | inr e ↦ (
          rw (post_events_lem config headers batch db, e) tt,
          inr (rw (post_events_lem config headers batch db, e) refl),
        )
      ]
