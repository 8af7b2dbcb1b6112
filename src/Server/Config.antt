-- ===== src/Server/Config.antt =====
-- crates/blankres-server/src/config.rs: what the handlers read of the configuration, and the hash of a
-- token. Loading it from a file and the environment is not modelled.
use blankres.Prelude.{ℕ, Bool, Option, List, [], ◌∷◌, ◌++◌, true, false}
use blankres.Text.{Text, codes, trim}
use blankres.Text.Bytes.{Bytes, utf8}

pub record Config : Type 0 where
  pub token_hashes : List Text
  pub payloads_per_signature : ℕ
  pub max_payload_bytes : ℕ
  pub upload_token_ttl_secs : ℕ
  pub public_url : Option Text

abbrev is_nil : List Text → Bool
is_nil [] = true
is_nil (t ∷ ts) = false

unfoldable pub is_open : Config → Bool
is_open c = is_nil c.token_hashes

unfoldable pub hash_token : (Bytes → Text) → Text → Text
unfolding trim utf8
hash_token sha256_hex token = sha256_hex (codes "blankres-token-v1" ++ 0 ∷ utf8 (trim token))
