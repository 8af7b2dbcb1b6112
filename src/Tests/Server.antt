-- ===== src/Tests/Server.antt =====
-- crates/blankres-server at concrete inputs.
use blankres.Prelude.{ℕ, ◌<◌, ◌+◌, ◌*◌, true, false, none, some, [], ◌∷◌, ◌≡◌, ◌↔◌, refl, arith}
use blankres.Server.Db.{
  Db, EventOutcome, redeemed_of, fetch_signature, record_event, redeem_upload_token,
  issue_upload_token, has_event, has_token, has_signature, micros,
}
use blankres.Server.Db.Decision.{
  record_event_decision, stored_events, stored_payloads, stored_suppressed,
}
use blankres.Server.Db.Tokens.{
  HasUniqueTokens, find_token, redemption, redeem_exact, redeem_once, redeem-issue,
}
use blankres.Server.Interleaving.{Server}
use blankres.Tests.Data.{hash_a, crash, one_token, token_t}
use blankres.Text.{Text, codes}

abbrev one_event : Db ℕ
one_event = record one_token { upload_tokens = [] }

abbrev asked : Server ℕ
asked = record { db = one_event; deciding = (7, hash_a) ∷ []; uploading = [] }

abbrev one_letter : ℕ → Text
one_letter n = n ∷ []

one_token-HasUniqueTokens : HasUniqueTokens one_token.upload_tokens
unfolding has_token
one_token-HasUniqueTokens = (refl, tt)

redeem_once_example :
    HasUniqueTokens (redeem_upload_token one_token (codes "t") 10).1.upload_tokens
    × ((redeem_upload_token (redeem_upload_token one_token (codes "t") 10).1 (codes "t") 11).0
        ≡ none)
    × (find_token (codes "u") (redeem_upload_token one_token (codes "t") 10).1.upload_tokens
        ≡ find_token (codes "u") one_token.upload_tokens)
unfolding redeem_upload_token
redeem_once_example =
    redeem_once one_token (codes "t") (codes "u") 10 11 {r = redeemed_of token_t}
      one_token-HasUniqueTokens refl (ground arith)

redeem_exact_example :
    (redeem_upload_token one_token (codes "t") 60).0
    ≡ redemption 60 (find_token (codes "t") one_token.upload_tokens)
redeem_exact_example = redeem_exact one_token (codes "t") 60 one_token-HasUniqueTokens

redeem-issue_example :
    (db' : Db ℕ) × (issue_upload_token one_token (codes "u") 7 hash_a 9 60 100
      ≡ some (100 + 60 * micros, db'))
    × HasUniqueTokens db'.upload_tokens
    × ((redeem_upload_token db' (codes "u") 200).0
        ≡ some (record { event_id = 7; signature = hash_a; max_bytes = 9 }))
unfolding has_token has_event has_signature
redeem-issue_example =
    redeem-issue one_token (codes "u") 7 hash_a 9 60 100 200 one_token-HasUniqueTokens refl refl
      (omega arith)

record_event_decision_example :
    (outcome : EventOutcome) × (db' : Db ℕ) × (record_event one_token crash 1 8
      ≡ some (outcome, db'))
    × ((outcome.need_payload ≡ true) ↔ (
        (crash.core_available ≡ true)
        × (stored_suppressed (fetch_signature one_token hash_a) ≡ false)
        × (stored_payloads (fetch_signature one_token hash_a) < 1)))
    × (stored_events (fetch_signature db' hash_a)
        ≡ stored_events (fetch_signature one_token hash_a) + 1)
    × (stored_payloads (fetch_signature db' hash_a)
        ≡ stored_payloads (fetch_signature one_token hash_a))
    × (stored_suppressed (fetch_signature db' hash_a)
        ≡ stored_suppressed (fetch_signature one_token hash_a))
    × (fetch_signature db' (codes "bb") ≡ fetch_signature one_token (codes "bb"))
unfolding has_event
record_event_decision_example =
    record_event_decision one_token crash 1 8 (codes "bb") refl (ground arith)
