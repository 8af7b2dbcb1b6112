-- ===== src/Tests/Report.antt =====
-- crates/blankres-report at concrete inputs.
use blankres.Prelude.{none, some, [], ◌∷◌, ◌++◌, ◌≡◌, refl, arith, length, filter}
use blankres.Report.Event.{Frame}
use blankres.Report.Redact.{redacted, is_secret_name, filter_environment, scrub_command_line}
use blankres.Report.Redact.CommandLine.{IsSecretFlag, awaits_value, scrub-hides, scrub_leaks}
use blankres.Report.Redact.Environment.{may_leave, is_withheld, filter_environment-filter}
use blankres.Report.Signature.{normalized, is_noise, from_frames, precise_input, signal_or_zero}
use blankres.Report.Signature.Frames.{AllNulFree, from_frames-noise, precise_input_injective}
use blankres.Tests.Data.{digest}
use blankres.Text.{Text, codes, split_once, starts_with, text_le}
use blankres.Text.Utf8.{IsNulFree}
use blankres.TextMap.{TextMap}

abbrev password : Text
password = codes "--password"

password-IsSecretFlag : IsSecretFlag password
unfolding starts_with is_secret_name split_once
password-IsSecretFlag = (refl, refl, refl)

scrub-hides_example :
    (scrub_command_line ((codes "run" ∷ []) ++ password ∷ codes "hunter2" ∷ [])
      ≡ scrub_command_line (codes "run" ∷ []) ++ password ∷ redacted ∷ scrub_command_line [])
    × (scrub_command_line ((codes "run" ∷ []) ++ (codes "API_TOKEN" ++ b'=' ∷ codes "hunter2") ∷ [])
        ≡ scrub_command_line (codes "run" ∷ [])
          ++ (codes "API_TOKEN" ++ b'=' ∷ redacted) ∷ scrub_command_line [])
unfolding awaits_value is_secret_name split_once
scrub-hides_example =
    scrub-hides (codes "run" ∷ []) [] password (codes "API_TOKEN") (codes "hunter2") refl
      password-IsSecretFlag refl refl

scrub_leaks_example :
    scrub_command_line (password ∷ codes "--token" ∷ codes "hunter2" ∷ [])
    ≡ password ∷ redacted ∷ codes "hunter2" ∷ scrub_command_line []
unfolding is_secret_name split_once
scrub_leaks_example =
    scrub_leaks password (codes "--token") (codes "hunter2") [] password-IsSecretFlag refl refl

abbrev env : TextMap Text
env = (codes "HOME", codes "/root") ∷ (codes "LANG", codes "C") ∷ []

filter_environment-filter_example :
    filter_environment env ≡ (filter may_leave env, length (filter is_withheld env))
unfolding text_le
filter_environment-filter_example = filter_environment-filter env ((refl, tt), (tt, tt))

abbrev frame : Text → Frame
frame name = record {
  function = some name;
  module_name = some (codes "libc.so.6");
  module_offset = none;
}

abbrev abort_frame : Frame
abort_frame = frame (codes "abort")

abbrev main_frame : Frame
main_frame = frame (codes "main")

from_frames-noise_example :
    from_frames digest ((abort_frame ∷ []) ++ main_frame ∷ []) (some 6) (codes "/bin/a")
    ≡ from_frames digest (main_frame ∷ []) (some 6) (codes "/bin/a")
unfolding normalized is_noise
from_frames-noise_example =
    from_frames-noise digest (abort_frame ∷ []) main_frame [] (some 6) (codes "/bin/a") (refl, tt)
      refl

a-IsNulFree : IsNulFree (codes "a")
a-IsNulFree = ground arith

f-AllNulFree : AllNulFree (codes "f" ∷ [])
f-AllNulFree = ground arith

precise_input_injective_example :
    (codes "a" ≡ codes "a")
    × (signal_or_zero none ≡ signal_or_zero (some 0))
    × ((codes "f" ∷ []) ≡ (codes "f" ∷ []))
unfolding precise_input
precise_input_injective_example =
    precise_input_injective (codes "a") (codes "a") none (some 0) (codes "f" ∷ []) (codes "f" ∷ [])
      a-IsNulFree a-IsNulFree (omega arith) (omega arith) f-AllNulFree f-AllNulFree refl
