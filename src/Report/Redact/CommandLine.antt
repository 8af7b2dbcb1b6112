-- ===== src/Report/Redact/CommandLine.antt =====
-- The command-line scrubber of crates/blankres-report/src/redact.rs.
use blankres.Prelude.{
  Bool, true, false, none, some, suc, List, [], ◌∷◌, ◌++◌, ◌≡◌, refl, ap, arith, length, ◌∙◌,
  Bool-cases, Option-cases, inl, inr,
}
use blankres.Text.{Text, codes, starts_with, split_once}
use blankres.Report.Redact.{is_secret_name, redacted, scrub_arg, scrub_from, scrub_command_line}

-- One argument in is one argument out.
length-scrub_from : (b : Bool) (argv : List Text) → length (scrub_from b argv) ≡ length argv
unfolding scrub_from
length-scrub_from b [] = refl
length-scrub_from true (arg ∷ argv) = ap suc (length-scrub_from false argv)
length-scrub_from false (arg ∷ argv) = ap suc (length-scrub_from (scrub_arg arg).1 argv)

-- Is the argument behind `argv` a value that `redact_next` takes?
unfoldable pub awaits_value : Bool → List Text → Bool
unfolding scrub_arg
awaits_value b [] = b
awaits_value true (arg ∷ argv) = awaits_value false argv
awaits_value false (arg ∷ argv) = awaits_value (scrub_arg arg).1 argv

scrub_from-append :
    (b : Bool) (a c : List Text)
    → scrub_from b (a ++ c) ≡ scrub_from b a ++ scrub_from (awaits_value b a) c
unfolding scrub_from awaits_value
scrub_from-append b [] c = refl
scrub_from-append true (x ∷ a) c = ap (λ l. redacted ∷ l) (scrub_from-append false a c)
scrub_from-append false (x ∷ a) c =
    ap (λ l. (scrub_arg x).0 ∷ l) (scrub_from-append (scrub_arg x).1 a c)

-- An argument that names a secret and carries no value of its own.
abbrev pub IsSecretFlag : Text → Type 0
IsSecretFlag flag =
    (starts_with (codes "-") flag ≡ true)
    × (is_secret_name flag ≡ true)
    × (split_once b'=' flag ≡ none)

scrub_flag : (flag : Text) → IsSecretFlag flag → scrub_arg flag ≡ (flag, true)
unfolding scrub_arg
scrub_flag flag h = rw (h.2, h.0, h.1)

split_once-assign :
    (name value : Text)
    → split_once b'=' name ≡ none
    → split_once b'=' (name ++ b'=' ∷ value) ≡ some (name, value)
unfolding split_once
split_once-assign [] value h = refl
split_once-assign (c ∷ name) value h = ground (arith, split_once-assign name value)

scrub_assign :
    (name value : Text)
    → is_secret_name name ≡ true
    → split_once b'=' name ≡ none
    → scrub_arg (name ++ b'=' ∷ value) ≡ (name ++ b'=' ∷ redacted, false)
unfolding scrub_arg
scrub_assign name value secret plain = rw (split_once-assign name value plain, secret)

scrub_plain :
    (value : Text)
    → is_secret_name value ≡ false
    → split_once b'=' value ≡ none
    → scrub_arg value ≡ (value, false)
unfolding scrub_arg
scrub_plain value shown plain =
    rw (plain, shown) (ground (arith, Bool-cases (starts_with (codes "-") value)))

flag_value :
    (after : List Text) (flag value : Text)
    → IsSecretFlag flag
    → scrub_from false (flag ∷ value ∷ after) ≡ flag ∷ redacted ∷ scrub_from false after
unfolding scrub_from
flag_value after flag value f = rw (scrub_flag flag f)

assigned_value :
    (after : List Text) (name value : Text)
    → is_secret_name name ≡ true
    → split_once b'=' name ≡ none
    → scrub_from false ((name ++ b'=' ∷ value) ∷ after)
      ≡ (name ++ b'=' ∷ redacted) ∷ scrub_from false after
unfolding scrub_from
assigned_value after name value secret plain = rw (scrub_assign name value secret plain)

-- What stands before the first `=` holds none.
split_once-before :
    (s name value : Text) → split_once b'=' s ≡ some (name, value) → split_once b'=' name ≡ none
unfolding split_once
split_once-before [] name value h = cc
split_once-before (c ∷ s) name value h = elim (Option-cases (split_once b'=' s)) [
  | inl e ↦ ground (arith, e)
  | inr (r, e) ↦ ground (arith, e, split_once-before s r.0 r.1)
]

-- What one argument becomes is left as it is by a second pass, with the same flag.
scrub_arg_idem : (arg : Text) → scrub_arg (scrub_arg arg).0 ≡ scrub_arg arg
unfolding scrub_arg
scrub_arg_idem arg = elim (Option-cases (split_once b'=' arg)) [
  | inl e ↦ rw e (rw e)
  | inr (r, e) ↦ elim (Bool-cases (is_secret_name r.0)) [
    | inl secret ↦
        rw (e, secret)
          (rw (split_once-assign r.0 redacted (split_once-before arg r.0 r.1 e), secret))
    | inr other ↦ rw (e, other) (rw (e, other))
  ]
]

scrub_from_idem :
    (b : Bool) (argv : List Text) → scrub_from b (scrub_from b argv) ≡ scrub_from b argv
unfolding scrub_from
scrub_from_idem b [] = refl
scrub_from_idem true (arg ∷ argv) = ap (λ l. redacted ∷ l) (scrub_from_idem false argv)
scrub_from_idem false (arg ∷ argv) =
    rw (scrub_arg_idem arg)
      (ap (λ l. (scrub_arg arg).0 ∷ l) (scrub_from_idem (scrub_arg arg).1 argv))

-- Where the arguments before leave no value awaited, the value of a secret that follows is replaced: the
-- output is the same whatever stands behind a secret flag, and whatever stands behind the `=` of a
-- secret name. Both stand as the marker, and the name of the secret is kept.
pub scrub-hides :
    (before after : List Text) (flag name value : Text)
    → awaits_value false before ≡ false
    → IsSecretFlag flag
    → is_secret_name name ≡ true
    → split_once b'=' name ≡ none
    → (scrub_command_line (before ++ flag ∷ value ∷ after)
        ≡ scrub_command_line before ++ flag ∷ redacted ∷ scrub_command_line after)
      × (scrub_command_line (before ++ (name ++ b'=' ∷ value) ∷ after)
          ≡ scrub_command_line before ++ (name ++ b'=' ∷ redacted) ∷ scrub_command_line after)
unfolding scrub_command_line
scrub-hides before after flag name value idle f secret plain = (
  scrub_from-append false before (flag ∷ value ∷ after)
      ∙ rw idle (ap (λ l. scrub_from false before ++ l) (flag_value after flag value f)),
  scrub_from-append false before ((name ++ b'=' ∷ value) ∷ after)
      ∙ rw idle
          (ap (λ l. scrub_from false before ++ l) (assigned_value after name value secret plain)),
)

-- Two secret flags in a row: the first takes the second for its value, and the value of the second
-- is printed as it stands, unless it names a secret itself.
pub scrub_leaks :
    (first second value : Text) (after : List Text)
    → IsSecretFlag first
    → is_secret_name value ≡ false
    → split_once b'=' value ≡ none
    → scrub_command_line (first ∷ second ∷ value ∷ after)
      ≡ first ∷ redacted ∷ value ∷ scrub_command_line after
unfolding scrub_command_line scrub_from
scrub_leaks first second value after f shown plain =
    rw (scrub_flag first f, scrub_plain value shown plain)

-- Scrubbing again changes nothing.
scrub_idem :
    (argv : List Text) → scrub_command_line (scrub_command_line argv) ≡ scrub_command_line argv
unfolding scrub_command_line
scrub_idem argv = scrub_from_idem false argv
