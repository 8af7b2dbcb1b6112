-- ===== src/Daemon/Oops.antt =====
-- crates/blankres-daemon/src/oops.rs: a kernel oops, from the burst of its log lines to one event.
pub mod Trace
use blankres.Prelude.{
  ℕ, ◌-◌, Bool, true, false, not, ◌&&◌, ◌||◌, Option, none, some, List, [], ◌∷◌, ◌++◌, any, leb,
  ◌==◌, if◌then◌else◌,
}
use blankres.Report.Event.{
  CrashEvent, Frame, Signature, SystemInfo, kernel_oops, no_package, schema_version,
}
use blankres.Report.Signature.{from_frames, coarse_signature}
use blankres.Text.{Text, codes, contains, split, trim, drop_while, is_empty, join}
use blankres.Text.Bytes.{Bytes}

abbrev pub oops_markers : List Text
oops_markers =
    codes "Oops:"
    ∷ codes "kernel BUG at"
    ∷ codes "BUG: unable to handle"
    ∷ codes "BUG: kernel NULL pointer dereference"
    ∷ codes "general protection fault"
    ∷ codes "Unable to handle kernel"
    ∷ codes "kernel panic"
    ∷ codes "Kernel panic"
    ∷ []

abbrev pub coalesce_window_secs : ℕ
coalesce_window_secs = 10

unfoldable pub starts_oops : Text → Bool
unfolding contains
starts_oops line = any (λ marker. contains marker line) oops_markers

pub record OopsBuilder : Type 0 where
  pub started_at : ℕ
  pub lines : List Text

-- `OopsBuilder::new`
abbrev pub new_oops : ℕ → Text → OopsBuilder
new_oops started_at first_line = record { started_at = started_at; lines = first_line ∷ [] }

unfoldable pub push_line : OopsBuilder → Text → OopsBuilder
push_line b line = record b { lines = b.lines ++ line ∷ [] }

-- `saturating_sub` is `-` on these numbers.
unfoldable pub accepts : OopsBuilder → ℕ → Bool
accepts b now = leb (now - b.started_at) coalesce_window_secs

-- `OopsBuilder::text`
unfoldable pub text : OopsBuilder → Text
unfolding join
text b = join (codes "\n") b.lines

abbrev first_or_empty : List Text → Text
first_or_empty [] = []
first_or_empty (line ∷ rest) = line

abbrev or_line : Text → Option Text → Text
or_line line none = line
or_line line (some found) = found

-- `lines.iter().find(starts_oops)`
unfoldable pub find_oops : List Text → Option Text
unfolding starts_oops
find_oops [] = none
find_oops (line ∷ rest) =
    let later = find_oops rest in if starts_oops line then some line else later

unfoldable pub summary : List Text → Text
unfolding find_oops
summary lines = or_line (first_or_empty lines) (find_oops lines)

-- Where the loop of `parse_call_trace` stands: `in_trace` false; true with no frame yet; true with one; left
-- by `break`.
pub data TraceState : Type 0 where
  outside searching collecting ended : TraceState

abbrev first_of : List Text → Text
first_of [] = []
first_of (w ∷ ws) = w

-- `trim_start_matches('?')` and the trim behind it.
unfoldable pub candidate_of : Text → Text
unfolding drop_while trim
candidate_of trimmed = trim (drop_while (λ c. c == b'?') trimmed)

-- What stands before the first `+`.
unfoldable pub symbol_of : Text → Text
unfolding split trim
symbol_of candidate = trim (first_of (split (λ c. c == b'+') candidate))

-- The frame of a line within a trace, where it is one.
unfoldable pub frame_symbol : Text → Option Text
unfolding candidate_of symbol_of is_empty contains
frame_symbol trimmed =
    let candidate = candidate_of trimmed in
    let symbol = symbol_of candidate in
    if is_empty symbol || contains (codes " ") symbol || not (contains (codes "+") candidate)
    then none
    else some symbol

abbrev pub in_trace : TraceState → Option Text → TraceState × Option Text
in_trace searching none = (searching, none)
in_trace collecting none = (ended, none)
in_trace searching (some symbol) = (collecting, some symbol)
in_trace collecting (some symbol) = (collecting, some symbol)
in_trace outside found = (outside, none)
in_trace ended found = (ended, none)

abbrev pub at_marker : TraceState → TraceState
at_marker outside = searching
at_marker searching = searching
at_marker collecting = collecting
at_marker ended = ended

-- One round of the loop.
unfoldable pub trace_round : TraceState → Text → TraceState × Option Text
unfolding trim contains frame_symbol
trace_round t line =
    let trimmed = trim line in
    if contains (codes "Call Trace:") trimmed
    then (at_marker t, none)
    else in_trace t (frame_symbol trimmed)

abbrev pub push_frame : Option Text → List Frame → List Frame
push_frame none frames = frames
push_frame (some symbol) frames =
    record { function = some symbol; module_name = none; module_offset = none } ∷ frames

unfoldable pub trace_from : TraceState → List Text → List Frame
unfolding trace_round
trace_from t [] = []
trace_from t (line ∷ rest) =
    let (t', symbol) = trace_round t line in push_frame symbol (trace_from t' rest)

unfoldable pub parse_call_trace : List Text → List Frame
unfolding trace_from
parse_call_trace lines = trace_from outside lines

module _ (sha256_hex : Bytes → Text) where
  abbrev pub oops_signature : List Frame → List Text → Text → Signature
  oops_signature [] lines executable = coarse_signature sha256_hex (summary lines) none none
  oops_signature (f ∷ fs) lines executable = from_frames sha256_hex (f ∷ fs) none executable

  -- `OopsBuilder::to_event`
  unfoldable pub to_event : Text → OopsBuilder → SystemInfo → Text → ℕ → CrashEvent
  unfolding parse_call_trace summary from_frames coarse_signature
  to_event client_version b system machine_id crash_count =
      let executable = codes "kernel:" ++ system.kernel_version in
      record {
        schema = schema_version;
        signature = oops_signature (parse_call_trace b.lines) b.lines executable;
        kind = kernel_oops;
        timestamp = b.started_at;
        executable = executable;
        signal = none;
        signal_name = none;
        package_info = no_package;
        system = system;
        machine_id = machine_id;
        crash_count = crash_count;
        client_version = client_version;
        core_available = false;
        core_size = none;
      }
