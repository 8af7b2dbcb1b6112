-- ===== src/Report/Signature.antt =====
-- crates/blankres-report/src/signature.rs: the key under which crashes are counted as one problem.
-- SHA-256 with its hexadecimal print is a parameter of what hashes.
pub mod Frames
use blankres.Prelude.{
  ℕ, ◌+◌, ◌/◌, ◌%◌, ◌^◌, Bool, true, false, not, ◌&&◌, ◌||◌, Option, none, some, List, [], ◌∷◌,
  ◌++◌, map, any, take, drop, if◌then◌else◌, ◌==◌,
}
use blankres.Report.Event.{Precision, precise, coarse, Frame, Signature}
use blankres.Text.{
  Text, codes, text_eq, is_empty, starts_with, strip_prefix, split, split_once, split_whitespace,
  trim, to_lower, lines, drop_while_end, after_first, after_last,
}
use blankres.Text.Bytes.{Bytes, utf8}
use blankres.Text.Numbers.{parse_u32, parse_u64_hex, to_hex}

-- The first piece of a `split`, which always has one.
abbrev first_piece : List Text → Text
first_piece [] = []
first_piece (w ∷ ws) = w

-- `Frame::normalized`, its second half: the module and the offset in it.
unfoldable pub normalized_module : Option Text → Option ℕ → Text
unfolding to_lower to_hex
normalized_module (some m) (some offset) = to_lower m ++ (codes "+" ++ to_hex offset)
normalized_module (some m) none = to_lower m
normalized_module none offset = codes "??"

-- The symbol without a `+0x1c` behind it.
unfoldable pub symbol_base : Text → Text
unfolding split trim
symbol_base function = trim (first_piece (split (λ c. c == b'+') function))

unfoldable pub normalized_with : Option Text → Option Text → Option ℕ → Text
unfolding symbol_base is_empty text_eq to_lower normalized_module
normalized_with none m offset = normalized_module m offset
normalized_with (some function) m offset =
    let base = symbol_base function in
    if not (is_empty base) && not (text_eq base (codes "n/a"))
    then to_lower base
    else normalized_module m offset

unfoldable pub normalized : Frame → Text
unfolding normalized_with
normalized f = normalized_with f.function f.module_name f.module_offset

abbrev pub significant_frames : ℕ
significant_frames = 5

abbrev pub noise_prefixes : List Text
noise_prefixes =
    codes "__pthread_kill"
    ∷ codes "pthread_kill"
    ∷ codes "raise"
    ∷ codes "abort"
    ∷ codes "__libc_message"
    ∷ codes "__gi_raise"
    ∷ codes "__gi_abort"
    ∷ codes "__assert_fail"
    ∷ codes "__stack_chk_fail"
    ∷ codes "gsignal"
    ∷ []

unfoldable pub is_noise : Text → Bool
unfolding starts_with
is_noise normalized = any (λ p. starts_with p normalized) noise_prefixes

-- What follows the leading noise; `none` where all is noise.
unfoldable pub from_first_real : List Text → Option (List Text)
from_first_real [] = none
from_first_real (f ∷ fs) =
    let rest = from_first_real fs in if is_noise f then rest else some (f ∷ fs)

abbrev or_all : List Text → Option (List Text) → List Text
or_all all none = all
or_all all (some fs) = fs

-- `significant` of `from_frames`.
unfoldable pub significant : List Frame → List Text
unfolding from_first_real
significant frames =
    let names = map normalized frames in
    take significant_frames (or_all names (from_first_real names))

-- `u32::to_le_bytes`
abbrev pub to_le_bytes : ℕ → Bytes
to_le_bytes n = n % 256 ∷ ((n / 256) % 256) ∷ ((n / 65536) % 256) ∷ ((n / 16777216) % 256) ∷ []

abbrev pub signal_or_zero : Option ℕ → ℕ
signal_or_zero none = 0
signal_or_zero (some s) = s

unfoldable pub frame_input : List Text → Bytes
unfolding utf8
frame_input [] = []
frame_input (f ∷ fs) = 0 ∷ (utf8 f ++ frame_input fs)

-- All that `from_frames` hands to the hasher, in order.
unfoldable pub precise_input : Text → Option ℕ → List Text → Bytes
unfolding utf8 frame_input
precise_input executable signal frames =
    codes "blankres-sig-v1"
    ++ (0 ∷ (utf8 executable ++ (0 ∷ (to_le_bytes (signal_or_zero signal) ++ frame_input frames))))

abbrev text_or_empty : Option Text → Text
text_or_empty none = []
text_or_empty (some t) = t

-- All that `coarse` hands to the hasher, in order.
unfoldable pub coarse_input : Text → Option ℕ → Option Text → Bytes
unfolding utf8
coarse_input executable signal version =
    codes "blankres-sig-v1-coarse"
    ++ (0
        ∷ (utf8 executable
            ++ (0 ∷ (to_le_bytes (signal_or_zero signal) ++ (0 ∷ utf8 (text_or_empty version))))))

module _ (sha256_hex : Bytes → Text) where
  unfoldable pub coarse_signature : Text → Option ℕ → Option Text → Signature
  coarse_signature executable signal version = record {
    hash = sha256_hex (coarse_input executable signal version);
    precision = coarse;
    frames = [];
  }

  -- `Signature::from_frames`, behind the test `significant.is_empty()`.
  abbrev signature_of : List Text → Text → Option ℕ → Signature
  signature_of [] executable signal = coarse_signature executable signal none
  signature_of (f ∷ fs) executable signal = record {
    hash = sha256_hex (precise_input executable signal (f ∷ fs));
    precision = precise;
    frames = f ∷ fs;
  }

  unfoldable pub from_frames : List Frame → Option ℕ → Text → Signature
  unfolding significant
  from_frames frames signal executable = signature_of (significant frames) executable signal

-- `trim_start_matches("0x")`
unfoldable pub trim_0x : Text → Text
trim_0x (a ∷ b ∷ s) = let rest = trim_0x s in if a == b'0' && b == b'x' then rest else a ∷ b ∷ s
trim_0x s = s

abbrev last_name : Text → Option Text → Text
last_name path none = path
last_name path (some []) = path
last_name path (some (c ∷ s)) = c ∷ s

unfoldable pub basename : Text → Text
unfolding after_last
basename path = last_name path (after_last b'/' path)

-- `(module, module_offset)` of `parse_frame`, before `basename`.
abbrev location_parts : Text → Option (Text × Text) → Option Text × Option ℕ
location_parts location (some (m, offset)) = (some (trim m), parse_u64_hex (trim_0x (trim offset)))
location_parts [] none = (none, none)
location_parts (c ∷ s) none = (some (c ∷ s), none)

-- `(symbol, location)` of `parse_frame`.
abbrev tail_parts : Text → Option (Text × Text) → Text × Text
tail_parts tail none = (tail, [])
tail_parts tail (some (symbol, location)) =
    (trim symbol, trim (drop_while_end (λ c. c == b')') location))

abbrev known_symbol : Text → Option Text
known_symbol symbol = if is_empty symbol || text_eq symbol (codes "n/a") then none else some symbol

abbrev map_basename : Option Text → Option Text
map_basename none = none
map_basename (some m) = some (basename m)

unfoldable pub parse_tail : Text → Frame
unfolding split_once trim drop_while_end is_empty text_eq parse_u64_hex trim_0x basename
parse_tail tail =
    let (symbol, location) = tail_parts tail (split_once b'(' tail) in
    let (m, offset) = location_parts location (split_once b'+' location) in
    record { function = known_symbol symbol; module_name = map_basename m; module_offset = offset }

abbrev trim_tail : Option Text → Text
trim_tail none = []
trim_tail (some t) = trim t

abbrev frame_words : Text → List Text → Option Frame
frame_words rest (number ∷ addr ∷ more) = elim (parse_u32 number) [
  | none ↦ none
  | some n ↦
      if starts_with (codes "0x") addr
      then some (parse_tail (trim_tail (after_first addr rest)))
      else none
]
frame_words rest _ = none

abbrev frame_rest : Option Text → Option Frame
frame_rest none = none
frame_rest (some rest) = frame_words rest (split_whitespace rest)

unfoldable pub parse_frame : Text → Option Frame
unfolding strip_prefix split_whitespace parse_u32 starts_with after_first trim parse_tail
parse_frame line = frame_rest (strip_prefix (codes "#") line)

-- The loop of `parse_journal_stack_trace`; the flag is `in_block`.
unfoldable pub parse_lines : Bool → List Text → List Frame
unfolding trim starts_with is_empty parse_frame
parse_lines in_block [] = []
parse_lines in_block (raw ∷ rest) =
    let line = trim raw in
    let inside = parse_lines true rest in
    let outside = parse_lines false rest in
    if starts_with (codes "Stack trace of thread") line
    then (if in_block then [] else inside)
    else if not in_block
    then outside
    else elim (parse_frame line) [
      | some frame ↦ frame ∷ inside
      | none ↦ if is_empty line || not (starts_with (codes "#") line) then [] else inside
    ]

unfoldable pub parse_journal_stack_trace : Text → List Frame
unfolding lines parse_lines
parse_journal_stack_trace message = parse_lines false (lines message)
