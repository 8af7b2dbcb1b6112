-- ===== src/Daemon/Config.antt =====
-- crates/blankres-daemon/src/config.rs: the configuration of the machine's side. JSON is a parameter, and the
-- environment a function of the names.
use blankres.Prelude.{ℕ, Bool, true, false, ◌||◌, Option, none, some, []}
use blankres.Collect.Interfaces.{IoResult}
use blankres.Collect.Paths.{join_name}
use blankres.Text.{Text, codes, text_eq}
use blankres.Text.Numbers.{parse_u32}

-- `Endpoint` of crates/blankres-client/src/lib.rs.
pub record Endpoint : Type 0 where
  pub url : Text
  pub token : Text
  pub timeout_secs : ℕ

abbrev pub new_endpoint : Text → Text → Endpoint
new_endpoint url token = record { url = url; token = token; timeout_secs = 30 }

pub record ClientConfig : Type 0 where
  pub endpoint : Endpoint
  pub telemetry_enabled : Bool
  pub state_dir : Text
  pub crash_dir : Text
  pub directive_timeout_secs : ℕ
  pub rate_limit_per_hour : ℕ
  pub kernel_oops : Bool
  pub delete_declined_cores : Bool

-- `ClientConfig::default`
abbrev pub default_config : ClientConfig
default_config = record {
  endpoint = new_endpoint (codes "https://kres.blankonlinux.id") [];
  telemetry_enabled = false;
  state_dir = codes "/var/lib/blankres";
  crash_dir = codes "/var/crash";
  directive_timeout_secs = 3;
  rate_limit_per_hour = 6;
  kernel_oops = true;
  delete_declined_cores = true;
}

-- What `std::env::var` gives.
abbrev pub Env : Type 0
Env = Text → Option Text

abbrev or_text : Text → Option Text → Text
or_text t none = t
or_text t (some u) = u

abbrev is_one : Option Text → Bool
is_one none = false
is_one (some t) = text_eq t (codes "1")

abbrev or_limit : ℕ → Option ℕ → ℕ
or_limit limit none = limit
or_limit limit (some n) = n

abbrev parsed_limit : ℕ → Option Text → ℕ
parsed_limit limit none = limit
parsed_limit limit (some t) = or_limit limit (parse_u32 t)

-- The overrides of the environment.
unfoldable pub override_config : Env → ClientConfig → ClientConfig
unfolding text_eq parse_u32
override_config env c = record c {
  endpoint = record c.endpoint {
    url = or_text c.endpoint.url (env (codes "BLANKRES_SERVER_URL"));
    token = or_text c.endpoint.token (env (codes "BLANKRES_TOKEN"));
  };
  telemetry_enabled = c.telemetry_enabled || is_one (env (codes "BLANKRES_TELEMETRY"));
  rate_limit_per_hour =
      parsed_limit c.rate_limit_per_hour (env (codes "BLANKRES_RATE_LIMIT_PER_HOUR"));
}

abbrev parsed_config : Env → Option ClientConfig → Option ClientConfig
parsed_config env none = none
parsed_config env (some c) = some (override_config env c)

abbrev loaded_config : (Text → Option ClientConfig) → Env → IoResult Text → Option ClientConfig
loaded_config from_str env (IoResult.err e) = none
loaded_config from_str env (IoResult.ok content) = parsed_config env (from_str content)

-- `ClientConfig::load`, with the reading of the file; `none` for either error.
unfoldable pub load : (Text → Option ClientConfig) → Env → IoResult Text → Option ClientConfig
unfolding override_config
load from_str env content = loaded_config from_str env content

abbrev pub state_path : ClientConfig → Text
state_path c = join_name c.state_dir (codes "state.json")

abbrev pub spool_dir : ClientConfig → Text
spool_dir c = join_name c.state_dir (codes "spool")
