-- ===== src/Collect/Budget.antt =====
-- crates/blankres-collect/src/budget.rs. The clock is an argument: `now` is the time since an origin,
-- in nanoseconds, and `elapsed` the time since `started`.
use blankres.Prelude.{
  all, ◌∙◌, ℕ, ◌+◌, ◌-◌, ◌*◌, ◌%◌, ◌^◌, ◌≤◌, ◌<◌, true, List, [], ◌∷◌, ◌≡◌, refl, arith, ltb,
  if◌then◌else◌,
}

pub data Exhausted : Type 0 where
  time : ℕ → Exhausted
  bytes : ℕ → Exhausted

pub data Charged : Type 0 where
  ok : Charged
  err : Exhausted → Charged

pub record Budget : Type 0 where
  pub started : ℕ
  pub time_allowed : ℕ
  pub bytes_allowed : ℕ
  pub bytes_used : ℕ

unfoldable pub new_budget : ℕ → ℕ → ℕ → Budget
new_budget now time_allowed bytes_allowed = record {
  started = now;
  time_allowed = time_allowed;
  bytes_allowed = bytes_allowed;
  bytes_used = 0;
}

unfoldable pub stage1_budget : ℕ → Budget
unfolding new_budget
stage1_budget now = new_budget now 50_000_000 (256 * 1024)

unfoldable pub stage2_budget : ℕ → Budget
unfolding new_budget
stage2_budget now = new_budget now 20_000_000_000 (64 * 1024 * 1024)

unfoldable pub check_time : Budget → ℕ → Charged
check_time b now = if ltb b.time_allowed (now - b.started) then err (time b.time_allowed) else ok

abbrev charge_within : Budget → ℕ → Charged → Charged × Budget
charge_within b n (err e) = (err e, b)
charge_within b n ok =
    if ltb b.bytes_allowed ((b.bytes_used + n) % 2 ^ 64)
    then (err (bytes b.bytes_allowed), b)
    else (ok, record b { bytes_used = (b.bytes_used + n) % 2 ^ 64 })

-- `charge`; the additions are those of a `u64` in a release build.
unfoldable pub charge : Budget → ℕ → ℕ → Charged × Budget
unfolding check_time
charge b now n = charge_within b n (check_time b now)

-- A budget that is within its bounds, and bounds that fit the machine.
pub record IsValid (b : Budget) : Type 0 where
  pub within : b.bytes_used ≤ b.bytes_allowed
  pub fits : b.bytes_allowed < 2 ^ 63

abbrev granted_of : ℕ → Charged → ℕ
granted_of n ok = n
granted_of n (err e) = 0

-- Charges one after the other, with what was granted in all.
unfoldable pub charge_all : Budget → List (ℕ × ℕ) → ℕ × Budget
unfolding charge
charge_all b [] = (0, b)
charge_all b ((now, n) ∷ rest) =
    let (answer, b') = charge b now n in
    let (granted, last) = charge_all b' rest in (granted_of n answer + granted, last)

charge_step :
    (b : Budget) (now n : ℕ)
    → IsValid b
    → n < 2 ^ 63
    → IsValid (charge b now n).1
      × ((charge b now n).1.bytes_allowed ≡ b.bytes_allowed)
      × ((charge b now n).1.bytes_used ≡ b.bytes_used + granted_of n (charge b now n).0)
unfolding charge
charge_step b now n v h = ground arith

-- Whatever is charged, at whatever times: what is granted in all is what is used, and the sum never
-- passes the allowance, which does not change. A refused charge uses nothing. (Each charge is the
-- length of something in memory or on disk, so below 2^63.)
pub charge_all_bounds :
    (b : Budget) (charges : List (ℕ × ℕ))
    → IsValid b
    → all (λ c. ltb c.1 (2 ^ 63)) charges ≡ true
    → ((charge_all b charges).1.bytes_used ≡ b.bytes_used + (charge_all b charges).0)
      × ((charge_all b charges).1.bytes_used ≤ b.bytes_allowed)
      × ((charge_all b charges).1.bytes_allowed ≡ b.bytes_allowed)
unfolding charge_all
charge_all_bounds b [] v h = (omega arith, v.within, refl)
charge_all_bounds b ((now, n) ∷ rest) v h =
    let small : n < 2 ^ 63 = ground arith in
    let (valid, allowed, used) = charge_step b now n v small in
    let (sum, bound, same) = charge_all_bounds (charge b now n).1 rest valid (ground arith) in
    (omega arith, omega arith, same ∙ allowed)
