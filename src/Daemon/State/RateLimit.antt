-- ===== src/Daemon/State/RateLimit.antt =====
-- The rate limit of crates/blankres-daemon/src/state.rs over a whole run of crashes.
use blankres.Prelude.{
  all, not, ◌||◌, ℕ, ◌+◌, ◌%◌, ◌^◌, ◌≤◌, ◌<◌, Bool, true, false, ◌&&◌, List, [], ◌∷◌, ◌++◌, length,
  filter, ◌≡◌, ◌∙◌, ap, refl, arith, ltb, leb, if◌then◌else◌, length-append, length-filter, ◌⊎◌,
  inl, inr, one_if, Bool-cases,
}
use blankres.Daemon.State.{State, window_or_default, in_window, charge_rate_limit, rate_window_secs}
use blankres.Text.{Text, text_eq}
use blankres.Text.Equality.{text_eq_iff}
use blankres.TextMap.{lookup}
use blankres.TextMap.Laws.{lookup-insert}

abbrev pub window_of : State → Text → List ℕ
window_of s x = window_or_default (lookup x s.recent)

-- How many crashes of `x` pass the gate of `handle_coredump` in a run of crashes, each an executable
-- with its time.
unfoldable pub passed : ℕ → Text → State → List (Text × ℕ) → ℕ
unfolding charge_rate_limit
passed limit x s [] = 0
passed limit x s ((exe, now) ∷ rest) =
    let (seen, s') = charge_rate_limit s exe now in
    one_if (text_eq exe x && ltb seen limit) + passed limit x s' rest

-- Every crash of `x` in the run falls into the hour from `base`.
abbrev pub within_hour : Text → ℕ → List (Text × ℕ) → Bool
within_hour x base run =
    all (λ c. not (text_eq c.0 x) || (leb base c.1 && ltb c.1 (base + rate_window_secs))) run

within_hour-cons :
    (x : Text) (base : ℕ) (exe : Text) (now : ℕ) (run : List (Text × ℕ))
    → within_hour x base ((exe, now) ∷ run) ≡ true
    → text_eq exe x ≡ true
    → (base ≤ now) × (now < base + rate_window_secs)
within_hour-cons x base exe now run w same = ground arith

within_hour-tail :
    (x : Text) (base : ℕ) (exe : Text) (now : ℕ) (run : List (Text × ℕ))
    → within_hour x base ((exe, now) ∷ run) ≡ true
    → within_hour x base run ≡ true
within_hour-tail x base exe now run w = ground arith

-- The charges of the window that are still counted throughout the hour.
abbrev since : ℕ → List ℕ → ℕ
since base w = length (filter (leb base) w)

since-charge :
    (base now : ℕ) (w : List ℕ)
    → base ≤ now
    → now < base + rate_window_secs
    → since base (filter (in_window now) w ++ now ∷ []) ≡ since base w + 1
since-charge base now [] h k = ground arith
since-charge base now (x ∷ w) h k = ground (arith, since-charge base now w h k)

since-le-kept :
    (base now : ℕ) (w : List ℕ)
    → base ≤ now
    → now < base + rate_window_secs
    → since base w ≤ length (filter (in_window now) w)
since-le-kept base now [] h k = omega arith
since-le-kept base now (x ∷ w) h k = ground (arith, since-le-kept base now w h k)

window-charge :
    (s : State) (exe x : Text) (now : ℕ)
    → window_of (charge_rate_limit s exe now).1 x ≡ (
        if text_eq exe x
        then filter (in_window now) (window_of s exe) ++ now ∷ []
        else window_of s x)
unfolding charge_rate_limit
window-charge s exe x now = rw lookup-insert (ground (arith, Bool-cases (text_eq exe x)))

seen-charge :
    (s : State) (exe : Text) (now : ℕ)
    → (charge_rate_limit s exe now).0 ≡ length (filter (in_window now) (window_of s exe)) % 2 ^ 32
unfolding charge_rate_limit
seen-charge s exe now = refl

passed-cons :
    (limit : ℕ) (x : Text) (s : State) (exe : Text) (now : ℕ) (run : List (Text × ℕ))
    → passed limit x s ((exe, now) ∷ run)
      ≡ one_if (text_eq exe x && ltb (charge_rate_limit s exe now).0 limit)
        + passed limit x (charge_rate_limit s exe now).1 run
unfolding passed
passed-cons limit x s exe now run = refl

-- The window of another executable is no concern; that of `x` grows by one charge.
window-charge_ne :
    (s : State) (exe x : Text) (now : ℕ)
    → text_eq exe x ≡ false
    → window_of (charge_rate_limit s exe now).1 x ≡ window_of s x
window-charge_ne s exe x now ne = window-charge s exe x now ∙ rw ne

window-charge_self :
    (s : State) (exe x : Text) (now : ℕ)
    → text_eq exe x ≡ true
    → window_of (charge_rate_limit s exe now).1 x
      ≡ filter (in_window now) (window_of s x) ++ now ∷ []
window-charge_self s exe x now same =
    window-charge s exe x now
    ∙ rw same
        (ap (λ k. filter (in_window now) (window_of s k) ++ now ∷ []) ((text_eq_iff exe x).0 same))

seen-charge_self :
    (s : State) (exe x : Text) (now : ℕ)
    → text_eq exe x ≡ true
    → (charge_rate_limit s exe now).0 ≡ length (filter (in_window now) (window_of s x)) % 2 ^ 32
seen-charge_self s exe x now same =
    seen-charge s exe now
    ∙ ap (λ k. length (filter (in_window now) (window_of s k)) % 2 ^ 32)
        ((text_eq_iff exe x).0 same)

-- One gate: either it is shut, or one more charge still leaves room.
gate-le :
    (limit seen kept held : ℕ)
    → seen ≡ kept % 2 ^ 32
    → kept < 2 ^ 32
    → held ≤ kept
    → (one_if (ltb seen limit) ≡ 0) ⊎ ((one_if (ltb seen limit) ≡ 1) × (held + 1 ≤ limit))
gate-le limit seen kept held e small h = ground arith

passed_skip :
    (n held limit : ℕ) → (n + held ≤ limit) ⊎ (n ≡ 0) → (0 + n + held ≤ limit) ⊎ (0 + n ≡ 0)
passed_skip n held limit h = ground arith

passed_gate :
    (open_now n held limit : ℕ)
    → (n + (held + 1) ≤ limit) ⊎ (n ≡ 0)
    → (open_now ≡ 0) ⊎ ((open_now ≡ 1) × (held + 1 ≤ limit))
    → (open_now + n + held ≤ limit) ⊎ (open_now + n ≡ 0)
passed_gate open_now n held limit h g = ground arith

passed-le :
    (limit : ℕ) (x : Text) (base : ℕ) (s : State) (run : List (Text × ℕ))
    → within_hour x base run ≡ true
    → length (window_of s x) + length run < 2 ^ 32
    → (passed limit x s run + since base (window_of s x) ≤ limit) ⊎ (passed limit x s run ≡ 0)
passed-le limit x base s [] w small = inr (unfold passed in refl)
passed-le limit x base s ((exe, now) ∷ run) w small = elim (Bool-cases (text_eq exe x)) [
  | inl same ↦
      let kept = filter (in_window now) (window_of s x) in
      let grown = window-charge_self s exe x now same in
      let (from, to) = within_hour-cons x base exe now run w same in
      let ih =
        passed-le limit x base (charge_rate_limit s exe now).1 run
          (within_hour-tail x base exe now run w)
          (rw grown (
            omega (
              arith,
              length-append kept (now ∷ []),
              length-filter (in_window now) (window_of s x),
            ))) in
      rw (passed-cons, same)
        (passed_gate _ _ _ _ (rw (grown, since-charge base now (window_of s x) from to) at ih) (
          gate-le limit _ (length kept) (since base (window_of s x))
            (seen-charge_self s exe x now same)
            (omega (arith, length-filter (in_window now) (window_of s x)))
            (since-le-kept base now (window_of s x) from to)))
  | inr other ↦
      let ih =
        passed-le limit x base (charge_rate_limit s exe now).1 run
          (within_hour-tail x base exe now run w)
          (rw (window-charge_ne s exe x now other) (omega arith)) in
      rw (passed-cons, other) (passed_skip _ _ _ (rw (window-charge_ne s exe x now other) at ih))
]

-- Of the crashes of one executable that fall into any one hour, at most `limit` pass the gate, whatever
-- else crashes in between and whatever was charged before. (The counter is 32 bits wide, so there are
-- fewer charges than that.)
pub passed-le-limit :
    (limit : ℕ) (x : Text) (base : ℕ) (s : State) (run : List (Text × ℕ))
    → within_hour x base run ≡ true
    → length (window_of s x) + length run < 2 ^ 32
    → passed limit x s run ≤ limit
passed-le-limit limit x base s run w small = omega (arith, passed-le limit x base s run w small)
