-- ===== src/Report/Redact/Environment.antt =====
-- The environment filter of crates/blankres-report/src/redact.rs.
use blankres.Prelude.{
  ℕ, ◌+◌, Bool, filter, ◌++◌, true, false, not, ◌&&◌, [], ◌∷◌, ◌≡◌, ◌∙◌, ap, refl, arith, length,
  Bool-cases, inl, inr, append_assoc, append-nil,
}
use blankres.Text.{Text, codes}
use blankres.TextMap.{TextMap, IsSorted}
use blankres.TextMap.Laws.{insert-concat, IsSorted-middle}
use blankres.Report.Redact.{
  is_allowed_name, is_secret_name, filter_environment_from, filter_environment,
}

-- The entries that may leave the machine: the name is on the allowlist or has an allowed prefix,
-- and holds no secret marker.
abbrev pub may_leave : Text × Text → Bool
may_leave (name, value) = is_allowed_name name && not (is_secret_name name)

abbrev pub is_withheld : Text × Text → Bool
is_withheld entry = not (may_leave entry)

filter_from-filter :
    (kept : TextMap Text) (dropped : ℕ) (env : TextMap Text)
    → IsSorted (kept ++ env)
    → filter_environment_from kept dropped env
      ≡ (kept ++ filter may_leave env, dropped + length (filter is_withheld env))
unfolding filter_environment_from
filter_from-filter kept dropped [] h = ground (arith, append-nil kept)
filter_from-filter kept dropped ((k, v) ∷ env) h = elim (Bool-cases (may_leave (k, v))) [
  | inl keep ↦ rw keep (
      rw (insert-concat k v kept env h) (
        filter_from-filter (kept ++ (k, v) ∷ []) dropped env (rw append_assoc h)
        ∙ ap (λ l. (l, dropped + length (filter is_withheld env)))
            (append_assoc kept ((k, v) ∷ []) (filter may_leave env))))
  | inr drop ↦ rw drop (
      filter_from-filter kept (dropped + 1) env (IsSorted-middle k v kept env h)
      ∙ ap (λ n. (kept ++ filter may_leave env, n)) (omega arith))
]

-- Of an environment, a map with its names in order, exactly the entries that may leave are kept, in
-- order and with their values unchanged, and the count is that of all the others. The value plays
-- no part in the choice.
pub filter_environment-filter :
    (env : TextMap Text)
    → IsSorted env
    → filter_environment env ≡ (filter may_leave env, length (filter is_withheld env))
unfolding filter_environment
filter_environment-filter env h = ground (arith, filter_from-filter [] 0 env h)

-- Two names of the allowlist hold the marker `session`, so no environment keeps them: the variables
-- that tell the kind of desktop session are always withheld.
session_variables_withheld :
    (value : Text)
    → (is_allowed_name (codes "XDG_SESSION_TYPE") ≡ true)
      × (may_leave (codes "XDG_SESSION_TYPE", value) ≡ false)
      × (is_allowed_name (codes "XDG_SESSION_DESKTOP") ≡ true)
      × (may_leave (codes "XDG_SESSION_DESKTOP", value) ≡ false)
unfolding is_allowed_name is_secret_name
session_variables_withheld value = (refl, refl, refl, refl)
