-- ===== src/Report/Redact.antt =====
-- crates/blankres-report/src/redact.rs: what is withheld from a report.
pub mod Environment
pub mod CommandLine
use blankres.Prelude.{
  ℕ, ◌+◌, Bool, true, false, not, ◌&&◌, ◌||◌, Option, none, some, List, [], ◌∷◌, ◌++◌, any, filter,
  if◌then◌else◌, ◌==◌,
}
use blankres.Text.{
  Text, codes, text_eq, to_lower, contains, starts_with, split, split_once, is_empty,
}
use blankres.TextMap.{TextMap, insert, collect_onto}

abbrev pub env_allowlist : List Text
env_allowlist =
    codes "PATH"
    ∷ codes "LANG"
    ∷ codes "LANGUAGE"
    ∷ codes "SHELL"
    ∷ codes "TERM"
    ∷ codes "DISPLAY"
    ∷ codes "XDG_SESSION_TYPE"
    ∷ codes "XDG_CURRENT_DESKTOP"
    ∷ codes "XDG_SESSION_DESKTOP"
    ∷ codes "GDK_BACKEND"
    ∷ codes "QT_QPA_PLATFORM"
    ∷ codes "LD_PRELOAD"
    ∷ codes "LD_LIBRARY_PATH"
    ∷ codes "MALLOC_CHECK_"
    ∷ codes "MALLOC_PERTURB_"
    ∷ []

abbrev pub env_allowed_prefixes : List Text
env_allowed_prefixes = codes "LC_" ∷ []

abbrev pub secret_markers : List Text
secret_markers =
    codes "password"
    ∷ codes "passwd"
    ∷ codes "secret"
    ∷ codes "token"
    ∷ codes "api_key"
    ∷ codes "apikey"
    ∷ codes "auth"
    ∷ codes "credential"
    ∷ codes "private_key"
    ∷ codes "session"
    ∷ codes "cookie"
    ∷ codes "bearer"
    ∷ []

abbrev pub redacted : Text
redacted = codes "<redacted>"

unfoldable pub is_secret_name : Text → Bool
unfolding to_lower contains
is_secret_name name = let lower = to_lower name in any (λ m. contains m lower) secret_markers

-- The test `allowed` of `filter_environment`.
unfoldable pub is_allowed_name : Text → Bool
unfolding text_eq starts_with
is_allowed_name name =
    any (λ a. text_eq a name) env_allowlist || any (λ p. starts_with p name) env_allowed_prefixes

-- The loop of `filter_environment`, over the entries that are left.
unfoldable pub filter_environment_from : TextMap Text → ℕ → TextMap Text → TextMap Text × ℕ
filter_environment_from kept dropped [] = (kept, dropped)
filter_environment_from kept dropped ((name, value) ∷ env) =
    let keep = is_allowed_name name && not (is_secret_name name) in
    filter_environment_from (if keep then insert name value kept else kept)
      (if keep then dropped else dropped + 1) env

unfoldable pub filter_environment : TextMap Text → TextMap Text × ℕ
unfolding filter_environment_from
filter_environment = filter_environment_from [] 0

-- `filter_map(|entry| entry.split_once('='))`
abbrev keep_entry : Option (Text × Text) → List (Text × Text) → List (Text × Text)
keep_entry none rest = rest
keep_entry (some entry) rest = entry ∷ rest

unfoldable pub split_entries : List Text → List (Text × Text)
unfolding split_once
split_entries [] = []
split_entries (e ∷ es) = keep_entry (split_once b'=' e) (split_entries es)

unfoldable pub filter_environ_block : Text → TextMap Text × ℕ
unfolding split is_empty split_entries collect_onto
filter_environ_block block =
    filter_environment
      (collect_onto [] (split_entries (filter (λ e. not (is_empty e)) (split (λ c. c == 0) block))))

-- One argument outside of `redact_next`: what is pushed, and the flag afterwards.
abbrev scrub_split : Text → Option (Text × Text) → Text × Bool
scrub_split arg none = (arg, starts_with (codes "-") arg && is_secret_name arg)
scrub_split arg (some (name, value)) =
    if is_secret_name name
    then (name ++ (codes "=" ++ redacted), false)
    else (arg, starts_with (codes "-") arg && is_secret_name arg)

unfoldable pub scrub_arg : Text → Text × Bool
unfolding split_once starts_with
scrub_arg arg = scrub_split arg (split_once b'=' arg)

-- The loop of `scrub_command_line`; the flag is `redact_next`.
unfoldable pub scrub_from : Bool → List Text → List Text
unfolding scrub_arg
scrub_from redact_next [] = []
scrub_from true (arg ∷ argv) = redacted ∷ scrub_from false argv
scrub_from false (arg ∷ argv) = (scrub_arg arg).0 ∷ scrub_from (scrub_arg arg).1 argv

unfoldable pub scrub_command_line : List Text → List Text
unfolding scrub_from
scrub_command_line = scrub_from false

unfoldable pub scrub_cmdline_block : Text → List Text
unfolding split is_empty scrub_command_line
scrub_cmdline_block block =
    scrub_command_line (filter (λ a. not (is_empty a)) (split (λ c. c == 0 || c == b' ') block))
