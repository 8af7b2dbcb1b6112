-- ===== src/Daemon/Oops/Trace.antt =====
-- The call trace of an oops, crates/blankres-daemon/src/oops.rs: what of its lines goes into the signature.
use blankres.Prelude.{
  ◌≢◌, not, ◌&&◌, all, ℕ, Bool, true, false, List, [], ◌∷◌, ◌++◌, map, ◌≡◌, ◌∙◌, refl, ap, arith,
  ◌==◌,
}
use blankres.Daemon.Oops.{
  TraceState, outside, OopsBuilder, candidate_of, symbol_of, first_of, frame_symbol, trace_round,
  trace_from, parse_call_trace, to_event, oops_signature, push_frame,
}
use blankres.Report.Event.{SystemInfo, Frame}
use blankres.Text.{
  Text, codes, contains, starts_with, split, trim, trim_start, drop_while, drop_while_end,
  is_whitespace,
}
use blankres.Text.Bytes.{Bytes}
use blankres.Text.Trim.{drop_while-append, trim-middle}

trim-plus :
    (s o : Text) → trim (s ++ b'+' ∷ o) ≡ trim_start s ++ b'+' ∷ drop_while_end is_whitespace o
unfolding is_whitespace
trim-plus s o = trim-middle s b'+' o refl

-- What stands before the first `+` of a line, as far as the trimming leaves it.
abbrev kept : Text → Text
kept s = trim_start (drop_while (λ c. c == b'?') (trim_start s))

candidate_of-plus :
    (s o : Text) → (o' : Text) × (candidate_of (trim (s ++ b'+' ∷ o)) ≡ kept s ++ b'+' ∷ o')
unfolding candidate_of
candidate_of-plus s o = (
  drop_while_end is_whitespace (drop_while_end is_whitespace o),
  rw
      (
        trim-plus s o,
        drop_while-append (λ c. c == b'?') (trim_start s) b'+' (drop_while_end is_whitespace o)
            refl,
      )
      (trim-plus (drop_while (λ c. c == b'?') (trim_start s)) (drop_while_end is_whitespace o)),
)

first_of-split :
    (p : ℕ → Bool) (s : Text) (c : ℕ) (o : Text)
    → p c ≡ true
    → first_of (split p (s ++ c ∷ o)) ≡ first_of (split p (s ++ c ∷ []))
unfolding split
first_of-split p [] c o h = rw h refl
first_of-split p (d ∷ s) c o h = ground (arith, first_of-split p s c o h)

contains-plus : (s o : Text) → contains (codes "+") (s ++ b'+' ∷ o) ≡ true
unfolding contains starts_with
contains-plus [] o = ground arith
contains-plus (c ∷ s) o = ground (arith, contains-plus s o)

-- The frame of a line, by what stands before its first `+` alone.
frame_symbol-plus :
    (s o o' : Text) → frame_symbol (trim (s ++ b'+' ∷ o)) ≡ frame_symbol (trim (s ++ b'+' ∷ o'))
unfolding frame_symbol symbol_of
frame_symbol-plus s o o' =
    let (a, e) = candidate_of-plus s o in
    let (b, f) = candidate_of-plus s o' in
    rw
      (
        e,
        f,
        contains-plus (kept s) a,
        contains-plus (kept s) b,
        first_of-split (λ c. c == b'+') (kept s) b'+' a refl,
        first_of-split (λ c. c == b'+') (kept s) b'+' b refl,
      )
      refl

-- A line of a trace in two kernel logs: what stands before its first `+`, and what follows in each.
pub record TraceLine : Type 0 where
  pub symbol : Text
  pub here : Text
  pub there : Text

abbrev pub line_here : TraceLine → Text
line_here l = l.symbol ++ b'+' ∷ l.here

abbrev pub line_there : TraceLine → Text
line_there l = l.symbol ++ b'+' ∷ l.there

-- Neither log opens a trace in this line.
abbrev pub is_inner : TraceLine → Bool
is_inner l =
    not (contains (codes "Call Trace:") (trim (line_here l)))
    && not (contains (codes "Call Trace:") (trim (line_there l)))

trace_round-offset :
    (t : TraceState) (l : TraceLine)
    → is_inner l ≡ true
    → trace_round t (line_here l) ≡ trace_round t (line_there l)
unfolding trace_round
trace_round-offset t l h =
    let here : contains (codes "Call Trace:") (trim (line_here l)) ≡ false = ground (arith, h) in
    let there : contains (codes "Call Trace:") (trim (line_there l)) ≡ false = ground (arith, h) in
    rw (here, there, frame_symbol-plus l.symbol l.here l.there) refl

trace_from-offset :
    (t : TraceState) (ls : List TraceLine)
    → all is_inner ls ≡ true
    → trace_from t (map line_here ls) ≡ trace_from t (map line_there ls)
unfolding trace_from
trace_from-offset t [] h = refl
trace_from-offset t (l ∷ ls) h =
    let (t', symbol) = trace_round t (line_there l) in
    rw (trace_round-offset t l (ground (arith, h)))
      (ap (push_frame symbol) (trace_from-offset t' ls (ground (arith, h))))

trace_from-header :
    (t : TraceState) (header : List Text) (ls : List TraceLine)
    → all is_inner ls ≡ true
    → trace_from t (header ++ map line_here ls) ≡ trace_from t (header ++ map line_there ls)
unfolding trace_from
trace_from-header t [] ls h = trace_from-offset t ls h
trace_from-header t (line ∷ header) ls h =
    let (t', symbol) = trace_round t line in
    ap (push_frame symbol) (trace_from-header t' header ls h)

oops_signature-frames :
    (sha256_hex : Bytes → Text) (frames : List Frame) (ls ls' : List Text) (executable : Text)
    → frames ≢ []
    → oops_signature sha256_hex frames ls executable
      ≡ oops_signature sha256_hex frames ls' executable
oops_signature-frames sha256_hex [] ls ls' executable h = absurd (h refl)
oops_signature-frames sha256_hex (f ∷ fs) ls ls' executable h = refl

-- Two oopses whose lines agree in a header and then, line by line, in all that stands before the first `+`
-- (no such line opening a trace) have the same signature under one kernel version, where the first has a
-- frame: no offset, time, machine or count goes into it.
pub to_event-offsets :
    (sha256_hex : Bytes → Text) (client_version : Text) (b b' : OopsBuilder) (header : List Text)
    (ls : List TraceLine) (system system' : SystemInfo) (id id' : Text) (count count' : ℕ)
    → b.lines ≡ header ++ map line_here ls
    → b'.lines ≡ header ++ map line_there ls
    → all is_inner ls ≡ true
    → system.kernel_version ≡ system'.kernel_version
    → parse_call_trace b.lines ≢ []
    → (to_event sha256_hex client_version b system id count).signature
      ≡ (to_event sha256_hex client_version b' system' id' count').signature
unfolding to_event parse_call_trace
to_event-offsets sha256_hex client_version b b' header ls system system' id id' count count' e e'
      inner same found =
    let frames : parse_call_trace b.lines ≡ parse_call_trace b'.lines =
      rw (e, e') (trace_from-header outside header ls inner) in
    oops_signature-frames sha256_hex (parse_call_trace b.lines) b.lines b'.lines
      (codes "kernel:" ++ system.kernel_version) found
    ∙ rw (frames, same) refl
