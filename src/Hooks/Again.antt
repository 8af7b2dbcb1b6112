-- ===== src/Hooks/Again.antt =====
-- What a run of the hook of crates/blankres-hooks reports that the run before has reported.
use blankres.Prelude.{
  ap, all, ◌≢◌, ◌<◌, ◌<◌, Bool, true, Option, none, some, List, [], ◌∷◌, ◌≡◌, ◌∙◌, refl, sym, arith,
  any, filter, length,
}
use blankres.Hooks.{
  PackageFailure, is_newer, is_same, all_failures, dedup, dedup_behind, parse_dpkg_log,
  newest_timestamp,
}
use blankres.Text.{Text, lines}
use blankres.Hooks.Log.{
  newer, all_failures-filter, is_newer_trans, remaining, newest-newer, nothing_left-parse,
}

filter-filter :
    (p q : PackageFailure → Bool) (fs : List PackageFailure)
    → ((f : PackageFailure) → p f ≡ true → q f ≡ true)
    → filter p (filter q fs) ≡ filter p fs
filter-filter p q [] h = refl
filter-filter p q (f ∷ fs) h = ground (arith, filter-filter p q fs h, h f)

all_failures-later :
    (last : Option Text) (t : Text) (ls : List Text)
    → is_newer last t ≡ true
    → all_failures (some t) ls ≡ filter (newer (some t)) (all_failures last ls)
all_failures-later last t ls h =
    rw (all_failures-filter last ls, all_failures-filter (some t) ls)
      (sym (
        filter-filter (newer (some t)) (newer last) (all_failures none ls)
          (λ f k. is_newer_trans last t f.logged_at h k)))

-- A failure that is only repeated is kept once.
dedup_behind-same :
    (f : PackageFailure) (gs : List PackageFailure)
    → all (λ g. is_same g f) gs ≡ true
    → dedup_behind f gs ≡ []
unfolding dedup_behind
dedup_behind-same f [] h = refl
dedup_behind-same f (g ∷ gs) h =
    let same : is_same g f ≡ true = ground (arith, h) in
    let others : all (λ k. is_same k f) gs ≡ true = ground (arith, h) in
    rw same (dedup_behind-same f gs others)

dedup-cons :
    (f : PackageFailure) (gs : List PackageFailure) → dedup (f ∷ gs) ≡ f ∷ dedup_behind f gs
unfolding dedup
dedup-cons f gs = refl

parse_dpkg_log_lem :
    (log : Text) (last : Option Text)
    → parse_dpkg_log log last ≡ dedup (all_failures last (lines log))
unfolding parse_dpkg_log
parse_dpkg_log_lem log last = refl

parse-repeated :
    (log : Text) (last : Option Text) (f : PackageFailure) (gs : List PackageFailure)
    → all_failures last (lines log) ≡ f ∷ gs
    → all (λ g. is_same g f) gs ≡ true
    → parse_dpkg_log log last ≡ f ∷ []
parse-repeated log last f gs e same =
    parse_dpkg_log_lem log last
    ∙ ap dedup e
    ∙ dedup-cons f gs
    ∙ ap (λ x. f ∷ x) (dedup_behind-same f gs same)

newest-single : (f : PackageFailure) → newest_timestamp (f ∷ []) ≡ some f.logged_at
unfolding newest_timestamp
newest-single f = refl

any-length :
    (p : PackageFailure → Bool) (fs : List PackageFailure)
    → any p fs ≡ true
    → 0 < length (filter p fs)
any-length p [] h = ground (arith, h)
any-length p (f ∷ fs) h = ground (arith, any-length p fs)

-- A line of the log still to report is reported.
left-parse :
    (log : Text) (after : Option Text) → 0 < remaining log after → parse_dpkg_log log after ≢ []
left-parse log after h e = absurd (omega (arith, h, nothing_left-parse log after e))

later_left :
    (log : Text) (last : Option Text) (f : PackageFailure) (gs : List PackageFailure)
    → all_failures last (lines log) ≡ f ∷ gs
    → is_newer last f.logged_at ≡ true
    → any (newer (some f.logged_at)) gs ≡ true
    → 0 < remaining log (some f.logged_at)
later_left log last f gs e first later =
    let behind : any (newer (some f.logged_at)) (f ∷ gs) ≡ true = ground (arith, later) in
    rw (all_failures-later last f.logged_at (lines log) first, e)
      (any-length (newer (some f.logged_at)) (f ∷ gs) behind)

-- A failure that the log has again at a later time, with no other failure in it: the first run reports it
-- once, with the time of its first line, and after that the next run has it to report again.
pub hook_reports_again :
    (log : Text) (last : Option Text) (f : PackageFailure) (gs : List PackageFailure)
    → all_failures last (lines log) ≡ f ∷ gs
    → all (λ g. is_same g f) gs ≡ true
    → any (newer (some f.logged_at)) gs ≡ true
    → (parse_dpkg_log log last ≡ f ∷ [])
      × (newest_timestamp (parse_dpkg_log log last) ≡ some f.logged_at)
      × (parse_dpkg_log log (newest_timestamp (parse_dpkg_log log last)) ≢ [])
hook_reports_again log last f gs e same later =
    let once = parse-repeated log last f gs e same in
    let newest : newest_timestamp (parse_dpkg_log log last) ≡ some f.logged_at =
      ap newest_timestamp once ∙ newest-single f in
    (
      once,
      newest,
      rw newest (
          left-parse log (some f.logged_at)
            (later_left log last f gs e (newest-newer log last newest) later)),
    )
