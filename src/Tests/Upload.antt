-- ===== src/Tests/Upload.antt =====
-- The endpoints of crates/blankres-server/src/routes.rs at concrete requests.
use blankres.Prelude.{
  ℕ, true, false, Option, none, some, List, [], ◌∷◌, ◌≡◌, ◌⊎◌, refl, if◌then◌else◌,
}
use blankres.Report.Event.{CrashEvent}
use blankres.Server.Config.{hash_token}
use blankres.Server.Db.{Db, redeemed_of, redeem_upload_token, has_token}
use blankres.Server.Db.Tokens.{HasUniqueTokens}
use blankres.Server.Routes.{
  err, Headers, Fresh, authorize, unauthorized, forbidden, internal_error, post_events,
}
use blankres.Server.Routes.Events.{OneEach, post_events_answers}
use blankres.Server.Routes.Upload.{Body, post_report}
use blankres.Server.Routes.Upload.Once.{upload_once}
use blankres.Server.Storage.{Disk, Blob, Storage}
use blankres.Tests.Data.{digest, shown, crash, server_config, one_token, token_t}
use blankres.Text.{codes}
use blankres.Text.Bytes.{Bytes}
use blankres.TextMap.{TextMap}

abbrev parsed : Bytes → Option ℕ
parsed [] = none
parsed (c ∷ cs) = some c

abbrev described : TextMap Blob → ℕ
described blobs = 0

abbrev headers : Headers
headers = record { authorization = none; upload_token = some (codes "t") }

abbrev hashed : Db ℕ
hashed = record one_token {
  upload_tokens = record token_t { token_hash = hash_token digest (codes "t") } ∷ [];
}

abbrev healthy : Disk
healthy = record {
  creates = true;
  writes = λ n. true;
  syncs = true;
  makes_dir = true;
  renames = true;
  unlinks = true;
}

abbrev full : Disk
full = record healthy { renames = false }

abbrev body : Body
body = record {
  parts =
      record { name = codes "metadata"; chunks = (1 ∷ 2 ∷ []) ∷ []; broken = false; disk = healthy }
      ∷ record {
        name = codes "core";
        chunks = (9 ∷ []) ∷ (8 ∷ []) ∷ [];
        broken = false;
        disk = full;
      }
      ∷ [];
  malformed = false;
}

abbrev store : Storage
store = record { blobs = []; incoming = 0 }

abbrev batch : List (CrashEvent × Fresh)
batch = (crash, record { event_id = 8; token = codes "u"; now = 20 }) ∷ []

hashed-HasUniqueTokens : HasUniqueTokens hashed.upload_tokens
unfolding has_token
hashed-HasUniqueTokens = (refl, tt)

post_events_answers_example :
    OneEach server_config batch (post_events digest shown server_config headers batch hashed).0
    × ((authorize digest headers server_config ≡ true)
        ⊎ (post_events digest shown server_config headers batch hashed
            ≡ (err unauthorized, hashed)))
post_events_answers_example = post_events_answers digest shown server_config headers batch hashed

-- The disk cannot move the blob to its place, and its temporary file stays.
left_over :
    (post_report digest parsed described shown server_config headers body 9 10 hashed store).0
    ≡ err internal_error
unfolding post_report
left_over = refl

upload_once_example :
    post_report digest parsed described shown server_config headers body 10 11
      (post_report digest parsed described shown server_config headers body 9 10 hashed store).1
      store
    ≡ (
      err (if authorize digest headers server_config then forbidden else unauthorized),
      (post_report digest parsed described shown server_config headers body 9 10 hashed store).1,
      store,
    )
unfolding redeem_upload_token authorize hash_token
upload_once_example =
    upload_once digest parsed described shown server_config headers headers body body 9 10 10 11
      hashed store store (codes "t") {r = redeemed_of token_t} hashed-HasUniqueTokens refl refl refl
      refl
