-- ===== src/Hooks/Settles.antt =====
-- The hook of crates/blankres-hooks/src/main.rs over many runs: what is left in the end.
use blankres.Prelude.{
  false, ℕ, zero, suc, ◌≤◌, true, Option, none, some, List, [], ◌∷◌, ◌≡◌, ◌∙◌, inl, inr, refl,
  arith, length, Option-cases,
}
use blankres.Client.{Answer, Network, Machine, Request, send_events}
use blankres.Hooks.{
  PackageFailure, events_of, Host, run_hook, report_failures, parse_dpkg_log, newest_timestamp,
}
use blankres.Report.Event.{CrashEvent, PayloadDirective}
use blankres.Text.{Text}
use blankres.Text.Bytes.{Bytes}
use blankres.Hooks.Log.{remaining, remaining-lt, parse-nothing_left, nothing_left-parse}

-- The server answers every batch with a directive for each event.
abbrev pub Answers : Network → Type 0
Answers net =
    (sent : List Request) (events : List CrashEvent)
    → (ds : List PayloadDirective) × (net.events_answer sent events ≡ Answer.ok ds)
      × (length ds ≡ length events)

abbrev or_last : Option Text → Option Text → Option Text
or_last last none = last
or_last last (some t) = some t

send_events-Answers :
    (net : Network) (events : List CrashEvent) (m : Machine)
    → Answers net
    → (ds : List PayloadDirective) × ((send_events net events m).0 ≡ Answer.ok ds)
unfolding send_events
send_events-Answers net events m h = let (ds, e, l) = h m.sent events in (ds, ground (arith, e, l))

newest_some :
    (last : Option Text) (f : PackageFailure) (fs : List PackageFailure)
    → newest_timestamp (f ∷ fs) ≡ or_last last (newest_timestamp (f ∷ fs))
unfolding newest_timestamp
newest_some last f fs = elim (Option-cases (newest_timestamp fs)) [
  | inl e ↦ rw e refl
  | inr (t, e) ↦ rw e refl
]

newest-empty : (fs : List PackageFailure) → newest_timestamp fs ≡ none → fs ≡ []
newest-empty [] e = refl
newest-empty (f ∷ fs) e = absurd (ground (arith, e, newest_some (some []) f fs))

module _ (sha256_hex : Bytes → Text) (net : Network) (host : Host) (now : ℕ) (log : Text) where
  -- One run behind the other, with the state that it leaves.
  unfoldable pub runs : ℕ → Option Text → Machine → Option Text × Machine
  runs zero last m = (last, m)
  runs (suc n) last m =
      let (last', m') = run_hook sha256_hex true false true net host now log last m in
      runs n last' m'

  report_failures-last :
      (last : Option Text) (m : Machine) (failures : List PackageFailure)
      → Answers net
      → host.is_state_writable ≡ true
      → (report_failures sha256_hex false true net host now last m failures).0
        ≡ or_last last (newest_timestamp failures)
  unfolding newest_timestamp
  report_failures-last last m [] h writable = refl
  report_failures-last last m (f ∷ fs) h writable =
      let (ds, e) = send_events-Answers net (events_of sha256_hex host now (f ∷ fs)) m h in
      ground (arith, e, writable, newest_some last f fs)

  run_hook-last :
      (last : Option Text) (m : Machine)
      → Answers net
      → host.is_state_writable ≡ true
      → (run_hook sha256_hex true false true net host now log last m).0
        ≡ or_last last (newest_timestamp (parse_dpkg_log log last))
  unfolding run_hook
  run_hook-last last m h writable = report_failures-last last m (parse_dpkg_log log last) h writable

  -- Where the server answers and the hook can write its state, runs of the hook over one log come to an end of it: after as many as it has
  -- lines of failures not yet reported, and after any greater number, nothing is left to report.
  pub hook_settles :
      (n : ℕ) (last : Option Text) (m : Machine)
      → Answers net
      → host.is_state_writable ≡ true
      → remaining log last ≤ n
      → parse_dpkg_log log (runs n last m).0 ≡ []
  unfolding runs
  hook_settles zero last m h writable le = parse-nothing_left log last le
  hook_settles (suc n) last m h writable le =
      let (last', m') = run_hook sha256_hex true false true net host now log last m in
      elim (Option-cases (newest_timestamp (parse_dpkg_log log last))) [
        | inl e ↦
            let done = nothing_left-parse log last (newest-empty _ e) in
            let same : last' ≡ last = run_hook-last last m h writable ∙ rw e refl in
            hook_settles n last' m' h writable (rw same (omega arith))
        | inr (t, e) ↦
            let moved : last' ≡ some t = run_hook-last last m h writable ∙ rw e refl in
            hook_settles n last' m' h writable (rw moved (omega (arith, remaining-lt log last e)))
      ]
