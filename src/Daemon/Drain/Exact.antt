-- ===== src/Daemon/Drain/Exact.antt =====
-- What a drain of the spool leaves for the next: crates/blankres-daemon/src/reporter.rs, `drain_spool`.
use blankres.Prelude.{
  Bool, true, false, Option, List, [], ◌∷◌, ◌≡◌, ◌∙◌, refl, arith, any, all, length, if◌then◌else◌,
}
use blankres.Client.{Answer, Network, Machine, send_events}
use blankres.Daemon.Drain.{remove_sent, events_of, after_answer, send_pending, drain_spool}
use blankres.Daemon.Spool.{Spool, drain_list}
use blankres.Report.Event.{CrashEvent, PayloadDirective}
use blankres.Text.{Text, text_eq}
use blankres.Text.Bytes.{Bytes}
use blankres.Text.Equality.{text_eq_iff, text_eq_refl}
use blankres.TextMap.{TextMap, remove}

abbrev keys_in : {V : Type 0} → TextMap CrashEvent → TextMap V → Bool
keys_in p q = all (λ y. any (λ x. text_eq x.0 y.0) p) q

abbrev pub is_ok : {A : Type 0} → Answer A → Bool
is_ok (Answer.err c) = false
is_ok (Answer.ok a) = true

drain_list-again :
    (from_slice : Bytes → Option CrashEvent) (s : Spool)
    → (drain_list from_slice (drain_list from_slice s).1).0 ≡ (drain_list from_slice s).0
unfolding drain_list
drain_list-again from_slice [] = refl
drain_list-again from_slice ((k, b) ∷ s) = ground (arith, drain_list-again from_slice s)

drain_list-remove :
    (from_slice : Bytes → Option CrashEvent) (path : Text) (s : Spool)
    → (drain_list from_slice (remove path s)).0 ≡ remove path (drain_list from_slice s).0
unfolding drain_list remove
drain_list-remove from_slice path [] = refl
drain_list-remove from_slice path ((k, b) ∷ s) = ground (arith, drain_list-remove from_slice path s)

drain_list-remove_sent :
    (from_slice : Bytes → Option CrashEvent) (p : TextMap CrashEvent) (ds : List PayloadDirective)
    (s : Spool)
    → (drain_list from_slice (remove_sent p ds s)).0 ≡ remove_sent p ds (drain_list from_slice s).0
unfolding remove_sent
drain_list-remove_sent from_slice [] ds s = refl
drain_list-remove_sent from_slice (x ∷ p) [] s = refl
drain_list-remove_sent from_slice ((k, e) ∷ p) (d ∷ ds) s =
    drain_list-remove_sent from_slice p ds (remove k s) ∙ rw (drain_list-remove from_slice k s) refl

keys_in-remove :
    (k : Text) (e : CrashEvent) (p q : TextMap CrashEvent)
    → keys_in ((k, e) ∷ p) q ≡ true
    → keys_in p (remove k q) ≡ true
unfolding remove
keys_in-remove k e p [] h = refl
keys_in-remove k e p ((j, f) ∷ q) h =
    ground (arith, keys_in-remove k e p q, text_eq_iff k j, text_eq_iff j k)

keys_in-cons :
    (x : Text × CrashEvent) (p q : TextMap CrashEvent)
    → keys_in p q ≡ true
    → keys_in (x ∷ p) q ≡ true
keys_in-cons x p [] h = refl
keys_in-cons x p (y ∷ q) h = ground (arith, keys_in-cons x p q)

keys_in_refl : (p : TextMap CrashEvent) → keys_in p p ≡ true
keys_in_refl [] = refl
keys_in_refl ((k, e) ∷ p) = ground (arith, text_eq_refl k, keys_in-cons (k, e) p p (keys_in_refl p))

remove_sent-all :
    (p : TextMap CrashEvent) (ds : List PayloadDirective) (q : TextMap CrashEvent)
    → length p ≡ length ds
    → keys_in p q ≡ true
    → remove_sent p ds q ≡ []
unfolding remove_sent
remove_sent-all [] ds [] l h = refl
remove_sent-all [] ds (y ∷ q) l h = ground arith
remove_sent-all (x ∷ p) [] q l h = ground arith
remove_sent-all ((k, e) ∷ p) (d ∷ ds) q l h =
    remove_sent-all p ds (remove k q) (ground arith) (keys_in-remove k e p q h)

length-events_of : (p : TextMap CrashEvent) → length (events_of p) ≡ length p
length-events_of [] = refl
length-events_of (x ∷ p) = omega (arith, length-events_of p)

length-send_events :
    (net : Network) (events : List CrashEvent) (m : Machine) {ds : List PayloadDirective}
    → (send_events net events m).0 ≡ Answer.ok ds
    → length ds ≡ length events
unfolding send_events
length-send_events net events m e = ground arith

after_answer-drained :
    (from_slice : Bytes → Option CrashEvent) (p : TextMap CrashEvent) (left : Spool)
    (a : Answer (List PayloadDirective)) (m : Machine)
    → (drain_list from_slice left).0 ≡ p
    → ((ds : List PayloadDirective) → a ≡ Answer.ok ds → length p ≡ length ds)
    → (drain_list from_slice (after_answer p left (a, m)).0).0 ≡ (if is_ok a then [] else p)
after_answer-drained from_slice p left (Answer.err c) m e l = e
after_answer-drained from_slice p left (Answer.ok ds) m e l =
    drain_list-remove_sent from_slice p ds left
    ∙ rw e (remove_sent-all p ds p (l ds refl) (keys_in_refl p))

send_pending-drained :
    (from_slice : Bytes → Option CrashEvent) (net : Network) (m : Machine) (p : TextMap CrashEvent)
    (left : Spool)
    → (drain_list from_slice left).0 ≡ p
    → (drain_list from_slice (send_pending net m (p, left)).0).0
      ≡ (if is_ok (send_events net (events_of p) m).0 then [] else p)
send_pending-drained from_slice net m [] left e = ground (arith, e)
send_pending-drained from_slice net m (x ∷ p) left e =
    let (a, m') = send_events net (events_of (x ∷ p)) m in
    after_answer-drained from_slice (x ∷ p) left a m' e (λ ds sent.
      ground (arith, length-send_events net (events_of (x ∷ p)) m sent, length-events_of (x ∷ p)))

-- Behind a drain of the spool the next one finds no event, where the server answered with one directive
-- for each, and every event again, in order, where it did not.
pub drain_spool_exact :
    (from_slice : Bytes → Option CrashEvent) (net : Network) (s : Spool) (m : Machine)
    → ((drain_list from_slice (drain_spool from_slice net s m).0).0 ≡ (
        if is_ok (send_events net (events_of (drain_list from_slice s).0) m).0
        then []
        else (drain_list from_slice s).0))
unfolding drain_spool
drain_spool_exact from_slice net s m =
    send_pending-drained from_slice net m (drain_list from_slice s).0 (drain_list from_slice s).1
      (drain_list-again from_slice s)
