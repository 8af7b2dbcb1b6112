-- ===== src/Session/Declined.antt =====
-- `Declined` of crates/blankres-session/src/store.rs: the signatures that are never raised again.
use blankres.Prelude.{
  ◌≤◌, true, false, ◌||◌, List, [], ◌∷◌, ◌++◌, ◌≡◌, refl, arith, count, count-concat, Bool-cases,
  inl, inr,
}
use blankres.Session.{declined_contains, declined_add}
use blankres.Text.{Text, text_eq}
use blankres.Text.Equality.{text_eq_iff, text_eq_refl}

contains-concat :
    (l : List Text) (s t : Text)
    → declined_contains (l ++ s ∷ []) t ≡ (text_eq s t || declined_contains l t)
unfolding declined_contains
contains-concat [] s t = refl
contains-concat (x ∷ l) s t = ground (arith, contains-concat l s t)

pub contains-add_self : (l : List Text) (s : Text) → declined_contains (declined_add l s) s ≡ true
unfolding declined_add
contains-add_self l s = elim (Bool-cases (declined_contains l s)) [
  | inl old ↦ rw old old
  | inr new ↦ rw new (ground (arith, contains-concat l s s, text_eq_refl s))
]

count-declined :
    (l : List Text) (s : Text) → declined_contains l s ≡ false → count (λ d. text_eq d s) l ≡ 0
unfolding declined_contains count
count-declined [] s h = refl
count-declined (x ∷ l) s h = ground (arith, count-declined l s)

-- Adding a signature makes exactly it a member besides those that were, and a list that holds each
-- signature at most once still does.
declined_add_lem :
    (l : List Text) (s t : Text)
    → count (λ d. text_eq d t) l ≤ 1
    → (declined_contains (declined_add l s) t ≡ (text_eq s t || declined_contains l t))
      × (count (λ d. text_eq d t) (declined_add l s) ≤ 1)
unfolding declined_add
declined_add_lem l s t h = elim (Bool-cases (declined_contains l s)) [
  | inl old ↦ rw old (ground (arith, text_eq_iff s t, old), h)
  | inr new ↦ rw new (
    contains-concat l s t,
    ground (arith, count-concat (λ d. text_eq d t) l s, count-declined l s new, text_eq_iff s t, h),
  )
]
