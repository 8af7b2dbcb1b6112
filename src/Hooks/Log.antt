-- ===== src/Hooks/Log.antt =====
-- The lines of failures in dpkg's log, crates/blankres-hooks/src/lib.rs: which are left behind a time stamp.
use blankres.Prelude.{
  ◌<◌, ℕ, ◌≤◌, ◌<◌, Bool, true, not, ◌&&◌, Option, none, some, List, [], ◌∷◌, ◌≡◌, inl, inr, refl,
  sym, arith, any, filter, length, Bool-cases, Option-cases,
}
use blankres.Hooks.{
  PackageFailure, is_newer, line_failure, failure_of, push_failure, all_failures, dedup,
  dedup_behind, parse_dpkg_log, newest_timestamp,
}
use blankres.Text.{Text, text_eq, lines, split_whitespace}
use blankres.Text.Equality.{text_eq_iff, text_eq_refl, text_le_total, text_le_trans}

abbrev pub newer : Option Text → PackageFailure → Bool
newer after f = is_newer after f.logged_at

failure_of-filter :
    (after : Option Text) (words : List Text) (fs : List PackageFailure)
    → push_failure (failure_of after words) (filter (newer after) fs)
      ≡ filter (newer after) (push_failure (failure_of none words) fs)
failure_of-filter after (date ∷ time ∷ kind ∷ state ∷ name ∷ more) fs = ground arith
failure_of-filter after [] fs = refl
failure_of-filter after (a ∷ []) fs = refl
failure_of-filter after (a ∷ b ∷ []) fs = refl
failure_of-filter after (a ∷ b ∷ c ∷ []) fs = refl
failure_of-filter after (a ∷ b ∷ c ∷ d ∷ []) fs = refl

pub all_failures-filter :
    (after : Option Text) (ls : List Text)
    → all_failures after ls ≡ filter (newer after) (all_failures none ls)
unfolding all_failures line_failure
all_failures-filter after [] = refl
all_failures-filter after (l ∷ ls) =
    rw (all_failures-filter after ls)
      (failure_of-filter after (split_whitespace l) (all_failures none ls))

any-filter :
    (q r : PackageFailure → Bool) (fs : List PackageFailure)
    → any r (filter q fs) ≡ true
    → any (λ f. q f && r f) fs ≡ true
any-filter q r [] h = h
any-filter q r (f ∷ fs) h = ground (arith, any-filter q r fs)

any-dedup_behind :
    (q : PackageFailure → Bool) (last : PackageFailure) (fs : List PackageFailure)
    → any q (dedup_behind last fs) ≡ true
    → any q fs ≡ true
unfolding dedup_behind
any-dedup_behind q last [] h = h
any-dedup_behind q last (f ∷ fs) h =
    ground (arith, any-dedup_behind q last fs, any-dedup_behind q f fs)

any-dedup :
    (q : PackageFailure → Bool) (fs : List PackageFailure)
    → any q (dedup fs) ≡ true
    → any q fs ≡ true
unfolding dedup
any-dedup q [] h = h
any-dedup q (f ∷ fs) h = ground (arith, any-dedup_behind q f fs)

newest-any :
    (fs : List PackageFailure) {t : Text}
    → newest_timestamp fs ≡ some t
    → any (λ f. text_eq f.logged_at t) fs ≡ true
unfolding newest_timestamp
newest-any [] e = ground (arith, e)
newest-any (f ∷ fs) {t = t} e = elim (Option-cases (newest_timestamp fs)) [
  | inl empty ↦ ground (arith, e, empty, text_eq_refl t)
  | inr (u, found) ↦ ground (arith, e, found, newest-any fs found, text_eq_refl t)
]

length-filter-le :
    (p q : PackageFailure → Bool) (fs : List PackageFailure)
    → ((f : PackageFailure) → p f ≡ true → q f ≡ true)
    → length (filter p fs) ≤ length (filter q fs)
length-filter-le p q [] h = omega arith
length-filter-le p q (f ∷ fs) h = ground (arith, length-filter-le p q fs h, h f)

length-filter-lt :
    (p q : PackageFailure → Bool) (fs : List PackageFailure)
    → ((f : PackageFailure) → p f ≡ true → q f ≡ true)
    → any (λ f. q f && not (p f)) fs ≡ true
    → length (filter p fs) < length (filter q fs)
length-filter-lt p q [] h e = ground (arith, e)
length-filter-lt p q (f ∷ fs) h e =
    ground (arith, length-filter-lt p q fs h, length-filter-le p q fs h, h f)

pub is_newer_trans :
    (after : Option Text) (t u : Text)
    → is_newer after t ≡ true
    → is_newer (some t) u ≡ true
    → is_newer after u ≡ true
is_newer_trans none t u h k = refl
is_newer_trans (some a) t u h k = ground (arith, text_le_total a t, text_le_trans u a t)

any-imp :
    (p q : PackageFailure → Bool) (fs : List PackageFailure)
    → ((f : PackageFailure) → p f ≡ true → q f ≡ true)
    → any p fs ≡ true
    → any q fs ≡ true
any-imp p q [] h e = e
any-imp p q (f ∷ fs) h e = ground (arith, any-imp p q fs h, h f)

any-witness :
    (p : PackageFailure → Bool) (fs : List PackageFailure)
    → any p fs ≡ true
    → (f : PackageFailure) × (p f ≡ true)
any-witness p [] e = absurd (cc)
any-witness p (f ∷ fs) e = elim (Bool-cases (p f)) [
  | inl h ↦ (f, h)
  | inr h ↦ any-witness p fs (ground (arith, e, h))
]

-- How many lines of the log would still be reported.
abbrev pub remaining : Text → Option Text → ℕ
remaining log after = length (all_failures after (lines log))

pub reported :
    (log : Text) (after : Option Text) {t : Text}
    → newest_timestamp (parse_dpkg_log log after) ≡ some t
    → any (λ f. newer after f && text_eq f.logged_at t) (all_failures none (lines log)) ≡ true
unfolding parse_dpkg_log
reported log after {t = t} e =
    any-filter (newer after) (λ f. text_eq f.logged_at t) (all_failures none (lines log))
      (rw (sym (all_failures-filter after (lines log)))
        (any-dedup (λ f. text_eq f.logged_at t) (all_failures after (lines log)) (newest-any _ e)))

at_time :
    (after : Option Text) (t : Text) (f : PackageFailure)
    → (newer after f && text_eq f.logged_at t) ≡ true
    → (newer after f && not (newer (some t) f)) ≡ true
at_time after t f h = ground (arith, text_eq_iff f.logged_at t, text_le_total t t)

pub newest-newer :
    (log : Text) (after : Option Text) {t : Text}
    → newest_timestamp (parse_dpkg_log log after) ≡ some t
    → is_newer after t ≡ true
newest-newer log after {t = t} e =
    let (f, h) =
      any-witness (λ f. newer after f && text_eq f.logged_at t) (all_failures none (lines log))
        (reported log after e) in
    let same : f.logged_at ≡ t = ground (arith, h, text_eq_iff f.logged_at t) in
    rw (sym same) (ground (arith, h))

pub remaining-lt :
    (log : Text) (after : Option Text) {t : Text}
    → newest_timestamp (parse_dpkg_log log after) ≡ some t
    → remaining log (some t) < remaining log after
remaining-lt log after {t = t} e =
    rw (all_failures-filter after (lines log), all_failures-filter (some t) (lines log))
      (length-filter-lt (newer (some t)) (newer after) (all_failures none (lines log))
        (λ f h. is_newer_trans after t f.logged_at (newest-newer log after e) h)
        (any-imp _ _ (all_failures none (lines log)) (at_time after t) (reported log after e)))

length-zero : {A : Type 0} (xs : List A) → length xs ≤ 0 → xs ≡ []
length-zero [] h = refl
length-zero (x ∷ xs) h = ground arith

pub parse-nothing_left :
    (log : Text) (after : Option Text) → remaining log after ≤ 0 → parse_dpkg_log log after ≡ []
unfolding parse_dpkg_log dedup
parse-nothing_left log after h = rw (length-zero (all_failures after (lines log)) h) refl

pub nothing_left-parse :
    (log : Text) (after : Option Text) → parse_dpkg_log log after ≡ [] → remaining log after ≤ 0
unfolding parse_dpkg_log dedup
nothing_left-parse log after e = ground (arith, e)
