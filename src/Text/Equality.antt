-- ===== src/Text/Equality.antt =====
-- `text_eq` decides equality of texts, and `text_le` is a total order.
use blankres.Prelude.{true, ◌||◌, [], ◌∷◌, ◌≡◌, refl, ◌↔◌, arith}
use blankres.Text.{Text, text_eq, text_le}

pub text_eq_iff : (s t : Text) → (text_eq s t ≡ true) ↔ (s ≡ t)
unfolding text_eq
text_eq_iff (a ∷ s) (b ∷ t) = ground (arith, text_eq_iff s t)
text_eq_iff _ _ = ground arith

pub text_eq_refl : (s : Text) → text_eq s s ≡ true
text_eq_refl s = (text_eq_iff s s).1 refl

pub text_le_total : (s t : Text) → (text_le s t || text_le t s) ≡ true
unfolding text_le
text_le_total [] t = refl
text_le_total (a ∷ s) [] = refl
text_le_total (a ∷ s) (b ∷ t) = ground (arith, text_le_total s t)

pub text_le_trans : (s t u : Text) → text_le s t ≡ true → text_le t u ≡ true → text_le s u ≡ true
unfolding text_le
text_le_trans [] t u h k = refl
text_le_trans (a ∷ s) [] u h k = ground arith
text_le_trans (a ∷ s) (b ∷ t) [] h k = ground arith
text_le_trans (a ∷ s) (b ∷ t) (c ∷ u) h k = ground (arith, text_le_trans s t u)

pub text_le_antisymm : (s t : Text) → text_le s t ≡ true → text_le t s ≡ true → s ≡ t
unfolding text_le
text_le_antisymm [] [] h k = refl
text_le_antisymm [] (b ∷ t) h k = ground arith
text_le_antisymm (a ∷ s) [] h k = ground arith
text_le_antisymm (a ∷ s) (b ∷ t) h k = ground (arith, text_le_antisymm s t)
