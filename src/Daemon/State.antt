-- ===== src/Daemon/State.antt =====
-- crates/blankres-daemon/src/state.rs: what the daemon remembers. The file that keeps it between two
-- runs is JSON and not modelled; a fresh salt is an argument.
pub mod RateLimit
pub mod Signatures
use blankres.Prelude.{
  ℕ, ◌+◌, ◌-◌, ◌%◌, ◌^◌, Bool, true, false, Option, none, some, List, [], ◌∷◌, ◌++◌, length, filter,
  ltb,
}
use blankres.Text.{Text}
use blankres.TextMap.{TextMap, lookup, insert}

abbrev pub rate_window_secs : ℕ
rate_window_secs = 3600

pub record SignatureState : Type 0 where
  pub count : ℕ
  pub declined : Bool

abbrev pub default_signature : SignatureState
default_signature = record { count = 0; declined = false }

pub record State : Type 0 where
  pub coredump_cursor : Option Text
  pub kernel_cursor : Option Text
  pub signatures : TextMap SignatureState
  pub recent : TextMap (List ℕ)
  pub machine_salt : Option Text

abbrev pub default_state : State
default_state = record {
  coredump_cursor = none;
  kernel_cursor = none;
  signatures = [];
  recent = [];
  machine_salt = none;
}

-- `entry(key).or_default()`
abbrev pub signature_or_default : Option SignatureState → SignatureState
signature_or_default none = default_signature
signature_or_default (some s) = s

abbrev pub window_or_default : Option (List ℕ) → List ℕ
window_or_default none = []
window_or_default (some w) = w

unfoldable pub note_signature : State → Text → ℕ × State
unfolding lookup insert
note_signature s hash =
    let entry = signature_or_default (lookup hash s.signatures) in
    let count = (entry.count + 1) % 2 ^ 32 in
    (count, record s { signatures = insert hash (record entry { count = count }) s.signatures })

unfoldable pub is_declined : State → Text → Bool
unfolding lookup
is_declined s hash = (signature_or_default (lookup hash s.signatures)).declined

unfoldable pub decline : State → Text → State
unfolding lookup insert
decline s hash =
    let entry = signature_or_default (lookup hash s.signatures) in
    record s { signatures = insert hash (record entry { declined = true }) s.signatures }

-- `saturating_sub` is `-` on these numbers.
abbrev pub in_window : ℕ → ℕ → Bool
in_window now seen = ltb (now - seen) rate_window_secs

unfoldable pub charge_rate_limit : State → Text → ℕ → ℕ × State
unfolding lookup insert
charge_rate_limit s executable now =
    let window = filter (in_window now) (window_or_default (lookup executable s.recent)) in
    (length window % 2 ^ 32, record s { recent = insert executable (window ++ now ∷ []) s.recent })

abbrev salt_with : State → Text → Option Text → Text × State
salt_with s fresh none = (fresh, record s { machine_salt = some fresh })
salt_with s fresh (some salt) = (salt, s)

-- `salt`, with the result of `random_hex`.
unfoldable pub salt : State → Text → Text × State
salt s fresh = salt_with s fresh s.machine_salt
