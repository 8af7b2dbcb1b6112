-- ===== src/Text/Split.antt =====
-- `split` on text that holds no separator, and at the first one.
use blankres.Prelude.{ℕ, Bool, true, not, [], ◌∷◌, ◌++◌, all, ◌≡◌, refl, arith}
use blankres.Text.{Text, split}

-- No character is a separator.
abbrev pub is_free_of : (ℕ → Bool) → Text → Bool
is_free_of p s = all (λ c. not (p c)) s

pub split-free : (p : ℕ → Bool) (s : Text) → is_free_of p s ≡ true → split p s ≡ s ∷ []
unfolding split
split-free p [] h = refl
split-free p (c ∷ s) h = ground (arith, split-free p s)

pub split-append :
    (p : ℕ → Bool) (s : Text) (c : ℕ) (rest : Text)
    → is_free_of p s ≡ true
    → p c ≡ true
    → split p (s ++ c ∷ rest) ≡ s ∷ split p rest
unfolding split
split-append p [] c rest h e = rw e
split-append p (d ∷ s) c rest h e = ground (arith, split-append p s c rest)
