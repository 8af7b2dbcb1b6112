-- ===== src/Report/Signature/Frames.antt =====
-- `Signature::from_frames` and `Signature::coarse` of crates/blankres-report/src/signature.rs: which
-- crashes count as one problem.
use blankres.Prelude.{
  ℕ, ◌<◌, ◌^◌, ◌≤◌, true, false, Option, none, some, List, [], ◌∷◌, ◌++◌, map, length, take, ◌≡◌,
  ◌≢◌, ◌⊎◌, Bool-cases, inl, inr, refl, ap, sym, arith, append_assoc, length-take, ◌==◌,
}
use blankres.Report.Event.{Frame, precise}
use blankres.Report.Signature.{
  normalized, normalized_with, symbol_base, is_noise, from_first_real, significant, or_all,
  from_frames, coarse_signature, frame_input, precise_input, coarse_input, to_le_bytes,
  signal_or_zero,
}
use blankres.Text.{Text}
use blankres.Text.Split.{is_free_of, split-free, split-append}
use blankres.Text.Bytes.{Bytes, utf8}
use blankres.Text.Utf8.{IsNulFree, utf8_injective}

abbrev pub AllNoise : List Frame → Type 0
AllNoise [] = Unit
AllNoise (f ∷ fs) = (is_noise (normalized f) ≡ true) × AllNoise fs

from_first_real-noise :
    (noise : List Frame) (f : Frame) (rest : List Frame)
    → AllNoise noise
    → is_noise (normalized f) ≡ false
    → from_first_real (map normalized (noise ++ f ∷ rest)) ≡ some (map normalized (f ∷ rest))
unfolding from_first_real
from_first_real-noise [] f rest n h = rw h
from_first_real-noise (x ∷ noise) f rest n h = rw n.0 (from_first_real-noise noise f rest n.1 h)

module _ (sha256_hex : Bytes → Text) where
  -- Leading frames of the abort machinery do not change the signature, as long as some frame is real.
  pub from_frames-noise :
      (noise : List Frame) (f : Frame) (rest : List Frame) (signal : Option ℕ) (executable : Text)
      → AllNoise noise
      → is_noise (normalized f) ≡ false
      → from_frames sha256_hex (noise ++ f ∷ rest) signal executable
        ≡ from_frames sha256_hex (f ∷ rest) signal executable
  unfolding from_frames
  from_frames-noise noise f rest signal executable n h =
      rw (from_first_real-noise noise f rest n h, from_first_real-noise [] f rest tt h)

symbol_base-suffix :
    (symbol suffix : Text)
    → is_free_of (λ c. c == b'+') symbol ≡ true
    → symbol_base (symbol ++ b'+' ∷ suffix) ≡ symbol_base symbol
unfolding symbol_base
symbol_base-suffix symbol suffix h =
    rw (
      split-append (λ c. c == b'+') symbol b'+' suffix h refl,
      split-free (λ c. c == b'+') symbol h,
    )

-- A symbol's `+0x1c` suffix plays no part in what the frame contributes.
normalized-suffix :
    (symbol suffix : Text) (m : Option Text) (offset : Option ℕ)
    → is_free_of (λ c. c == b'+') symbol ≡ true
    → normalized_with (some (symbol ++ b'+' ∷ suffix)) m offset
      ≡ normalized_with (some symbol) m offset
unfolding normalized_with
normalized-suffix symbol suffix m offset h = rw (symbol_base-suffix symbol suffix h)

le_bytes_injective :
    (m n : ℕ) (x y : Bytes)
    → m < 2 ^ 32
    → n < 2 ^ 32
    → to_le_bytes m ++ x ≡ to_le_bytes n ++ y
    → (m ≡ n) × (x ≡ y)
le_bytes_injective m n x y hm hn e = ground arith

-- The frames with each NUL moved behind its text.
abbrev terminated : List Text → Bytes
terminated [] = []
terminated (f ∷ fs) = utf8 f ++ 0 ∷ terminated fs

frame_input-terminated : (fs : List Text) → frame_input fs ++ 0 ∷ [] ≡ 0 ∷ terminated fs
unfolding frame_input
frame_input-terminated [] = refl
frame_input-terminated (f ∷ fs) = simp (append_assoc, frame_input-terminated fs)

abbrev pub AllNulFree : List Text → Type 0
AllNulFree [] = Unit
AllNulFree (f ∷ fs) = IsNulFree f × AllNulFree fs

not_nil : (x y : Bytes) → x ++ 0 ∷ y ≢ []
not_nil [] y = λ e. cc
not_nil (c ∷ x) y = λ e. cc

terminated_injective :
    (fs gs : List Text) → AllNulFree fs → AllNulFree gs → terminated fs ≡ terminated gs → fs ≡ gs
terminated_injective [] [] hf hg e = refl
terminated_injective [] (g ∷ gs) hf hg e = absurd (not_nil (utf8 g) (terminated gs) (sym e))
terminated_injective (f ∷ fs) [] hf hg e = absurd (not_nil (utf8 f) (terminated fs) e)
terminated_injective (f ∷ fs) (g ∷ gs) hf hg e =
    let (same, rest) = utf8_injective f g (terminated fs) (terminated gs) hf.0 hg.0 e in
    cc (same, terminated_injective fs gs hf.1 hg.1 rest)

frame_input_injective :
    (fs gs : List Text) → AllNulFree fs → AllNulFree gs → frame_input fs ≡ frame_input gs → fs ≡ gs
frame_input_injective fs gs hf hg e =
    terminated_injective fs gs hf hg
      (ground (arith, frame_input-terminated fs, frame_input-terminated gs, e))

-- What is hashed for a trace tells the executable, the signal and the frames apart: two crashes with
-- the same input agree in all three (a missing signal counts as 0). Texts hold no NUL.
pub precise_input_injective :
    (exe exe' : Text) (signal signal' : Option ℕ) (fs fs' : List Text)
    → IsNulFree exe
    → IsNulFree exe'
    → signal_or_zero signal < 2 ^ 32
    → signal_or_zero signal' < 2 ^ 32
    → AllNulFree fs
    → AllNulFree fs'
    → precise_input exe signal fs ≡ precise_input exe' signal' fs'
    → (exe ≡ exe') × (signal_or_zero signal ≡ signal_or_zero signal') × (fs ≡ fs')
unfolding precise_input
precise_input_injective exe exe' signal signal' fs fs' he he' hs hs' hf hf' e =
    let (same_exe, rest) = utf8_injective exe exe' _ _ he he' (cc e) in
    let (same_signal, frames) =
      le_bytes_injective _ _ (frame_input fs) (frame_input fs') hs hs' rest in
    (same_exe, same_signal, frame_input_injective fs fs' hf hf' frames)

-- A signature from a trace and one without never hash the same input.
precise_input-ne-coarse_input :
    (exe exe' : Text) (signal signal' : Option ℕ) (fs : List Text) (version : Option Text)
    → precise_input exe signal fs ≢ coarse_input exe' signal' version
unfolding precise_input coarse_input
precise_input-ne-coarse_input exe exe' signal signal' fs version e = cc e

first_real-cons :
    (l : List Text) {r : List Text}
    → from_first_real l ≡ some r
    → (x : Text) × (xs : List Text) × (r ≡ x ∷ xs)
unfolding from_first_real
first_real-cons [] h = cc
first_real-cons (f ∷ fs) h = elim (Bool-cases (is_noise f)) [
  | inl noise ↦ first_real-cons fs (rw noise at h)
  | inr real ↦ (f, fs, ground arith)
]

or_all-cons :
    (x : Text) (xs : List Text) (r : Option (List Text))
    → from_first_real (x ∷ xs) ≡ r
    → (y : Text) × (ys : List Text) × (or_all (x ∷ xs) r ≡ y ∷ ys)
or_all-cons x xs none h = (x, xs, refl)
or_all-cons x xs (some r) h = first_real-cons (x ∷ xs) h

significant-cons :
    (f : Frame) (fs : List Frame)
    → (x : Text) × (xs : List Text) × (significant (f ∷ fs) ≡ x ∷ take 4 xs)
unfolding significant
significant-cons f fs =
    let (x, xs, e) =
      or_all-cons (normalized f) (map normalized fs)
        (from_first_real (normalized f ∷ map normalized fs)) refl in
    (x, xs, ap (take 5) e)

module _ (sha256_hex : Bytes → Text) where
  -- A trace with a frame gives a precise signature of one to five frames; an empty one the coarse
  -- signature without a version.
  from_frames_shape :
      (frames : List Frame) (signal : Option ℕ) (executable : Text)
      → ((frames ≡ [])
          × (from_frames sha256_hex frames signal executable
              ≡ coarse_signature sha256_hex executable signal none))
        ⊎ (((from_frames sha256_hex frames signal executable).precision ≡ precise)
            × (1 ≤ length (from_frames sha256_hex frames signal executable).frames)
            × (length (from_frames sha256_hex frames signal executable).frames ≤ 5))
  unfolding from_frames
  from_frames_shape [] signal executable = inl (refl, refl)
  from_frames_shape (f ∷ fs) signal executable =
      let (x, xs, e) = significant-cons f fs in
      inr (rw e (refl, omega arith, omega (arith, length-take 4 xs)))
