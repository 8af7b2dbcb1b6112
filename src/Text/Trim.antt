-- ===== src/Text/Trim.antt =====
-- Trimming around a character that is not trimmed away.
use blankres.Prelude.{
  ℕ, Bool, false, [], ◌∷◌, ◌++◌, reverse, append_assoc, ◌≡◌, ◌∙◌, refl, ap, arith,
}
use blankres.Text.{Text, trim, trim_start, drop_while, drop_while_end, is_whitespace}
use mathlib.Core.List.{reverse-append, reverse-cons, reverse-reverse}

pub drop_while-append :
    (p : ℕ → Bool) (s : Text) (c : ℕ) (o : Text)
    → p c ≡ false
    → drop_while p (s ++ c ∷ o) ≡ drop_while p s ++ c ∷ o
unfolding drop_while
drop_while-append p [] c o h = rw h refl
drop_while-append p (d ∷ s) c o h = ground (arith, drop_while-append p s c o h)

reverse-middle : (s : Text) (c : ℕ) (o : Text) → reverse (s ++ c ∷ o) ≡ reverse o ++ c ∷ reverse s
reverse-middle s c o =
    reverse-append s (c ∷ o)
    ∙ ap (λ x. x ++ reverse s) (reverse-cons c o)
    ∙ append_assoc (reverse o) (c ∷ []) (reverse s)

pub drop_while_end-append :
    (p : ℕ → Bool) (s : Text) (c : ℕ) (o : Text)
    → p c ≡ false
    → drop_while_end p (s ++ c ∷ o) ≡ s ++ c ∷ drop_while_end p o
unfolding drop_while_end
drop_while_end-append p s c o h =
    ap (λ x. reverse (drop_while p x)) (reverse-middle s c o)
    ∙ ap reverse (drop_while-append p (reverse o) c (reverse s) h)
    ∙ reverse-middle (drop_while p (reverse o)) c (reverse s)
    ∙ ap (λ x. x ++ c ∷ reverse (drop_while p (reverse o))) (reverse-reverse s)

pub trim-middle :
    (s : Text) (c : ℕ) (o : Text)
    → is_whitespace c ≡ false
    → trim (s ++ c ∷ o) ≡ trim_start s ++ c ∷ drop_while_end is_whitespace o
unfolding trim trim_start
trim-middle s c o h =
    ap (drop_while_end is_whitespace) (drop_while-append is_whitespace s c o h)
    ∙ drop_while_end-append is_whitespace (trim_start s) c o h
