-- ===== src/Daemon/Drain.antt =====
-- crates/blankres-daemon/src/reporter.rs, `drain_spool`: what could not be sent is sent again.
pub mod Exact
use blankres.Prelude.{ℕ, Option, none, some, List, [], ◌∷◌, map}
use blankres.Client.{Answer, Network, Machine, send_events}
use blankres.Daemon.Spool.{Spool, drain_list}
use blankres.Report.Event.{CrashEvent, PayloadDirective}
use blankres.Text.{Text}
use blankres.Text.Bytes.{Bytes}
use blankres.TextMap.{TextMap, remove}

-- `pending.iter().zip(directives)`, with `Spool::remove` of each path.
unfoldable pub remove_sent :
    {V : Type 0} → TextMap CrashEvent → List PayloadDirective → TextMap V → TextMap V
unfolding remove
remove_sent [] ds s = s
remove_sent ((path, event) ∷ rest) [] s = s
remove_sent ((path, event) ∷ rest) (d ∷ ds) s = remove_sent rest ds (remove path s)

abbrev pub events_of : TextMap CrashEvent → List CrashEvent
events_of pending = map (λ entry. entry.1) pending

abbrev pub after_answer :
    TextMap CrashEvent → Spool → Answer (List PayloadDirective) × Machine → Spool × Machine
after_answer pending left (Answer.err c, m) = (left, m)
after_answer pending left (Answer.ok ds, m) = (remove_sent pending ds left, m)

abbrev pub send_pending : Network → Machine → TextMap CrashEvent × Spool → Spool × Machine
send_pending net m ([], left) = (left, m)
send_pending net m (entry ∷ rest, left) =
    after_answer (entry ∷ rest) left (send_events net (events_of (entry ∷ rest)) m)

unfoldable pub drain_spool :
    (Bytes → Option CrashEvent) → Network → Spool → Machine → Spool × Machine
unfolding drain_list send_events remove_sent
drain_spool from_slice net s m = send_pending net m (drain_list from_slice s)
