-- ===== src/Daemon/Watch/Coalesce.antt =====
-- How the loop of crates/blankres-daemon/src/main.rs divides the kernel's lines into oopses.
use blankres.Prelude.{
  ℕ, Bool, Option, none, some, List, [], ◌∷◌, ◌++◌, map, filter, append_assoc, append-nil, ◌≡◌, ◌∙◌,
  refl, sym, ap, arith, inl, inr, Bool-cases,
}
use blankres.Daemon.Journal.{JournalEntry, message}
use blankres.Daemon.Oops.{OopsBuilder, accepts, push_line, starts_oops}
use blankres.Daemon.Watch.{coalesce}
use blankres.Text.{Text}

abbrev pub push_finished : Option OopsBuilder → List OopsBuilder → List OopsBuilder
push_finished none bs = bs
push_finished (some b) bs = b ∷ bs

-- The oopses that the loop flushes for these entries, the last behind its end.
unfoldable pub group : List JournalEntry → Option OopsBuilder → List OopsBuilder
unfolding coalesce
group [] o = push_finished o []
group (e ∷ es) o =
    let (finished, next) = coalesce e.timestamp (message e) o in
    push_finished finished (group es next)

abbrev pub pending_lines : Option OopsBuilder → List Text
pending_lines none = []
pending_lines (some b) = b.lines

abbrev pub all_lines : List OopsBuilder → List Text
all_lines [] = []
all_lines (b ∷ bs) = b.lines ++ all_lines bs

filter-append :
    (p : Text → Bool) (xs ys : List Text) → filter p (xs ++ ys) ≡ filter p xs ++ filter p ys
filter-append p [] ys = refl
filter-append p (x ∷ xs) ys = ground (arith, filter-append p xs ys)

abbrev markers : List Text → List Text
markers = filter starts_oops

coalesce-markers :
    (now : ℕ) (line : Text) (o : Option OopsBuilder)
    → markers (pending_lines (coalesce now line o).0)
        ++ markers (pending_lines (coalesce now line o).1)
      ≡ markers (pending_lines o) ++ markers (line ∷ [])
unfolding coalesce push_line
coalesce-markers now line none = ground arith
coalesce-markers now line (some b) = elim (Bool-cases (accepts b now)) [
  | inl taken ↦ rw taken (filter-append starts_oops b.lines (line ∷ []))
  | inr late ↦ ground (arith, late, append-nil (markers b.lines))
]

all_lines-push :
    (o : Option OopsBuilder) (bs : List OopsBuilder)
    → all_lines (push_finished o bs) ≡ pending_lines o ++ all_lines bs
all_lines-push none bs = refl
all_lines-push (some b) bs = refl

-- Of the lines of all the oopses that the loop makes out of an oops so far and the entries that follow, those
-- that start an oops are those of the oops so far and then of the entries, in their order and each once.
pub group-markers :
    (es : List JournalEntry) (o : Option OopsBuilder)
    → filter starts_oops (all_lines (group es o))
      ≡ filter starts_oops (pending_lines o ++ map message es)
unfolding group
group-markers [] o = ap markers (all_lines-push o [])
group-markers (e ∷ es) o =
    let (finished, next) = coalesce e.timestamp (message e) o in
    ap markers (all_lines-push finished (group es next))
    ∙ filter-append starts_oops (pending_lines finished) (all_lines (group es next))
    ∙ ap (λ x. markers (pending_lines finished) ++ x)
        (group-markers es next ∙ filter-append starts_oops (pending_lines next) (map message es))
    ∙ sym (
        append_assoc (markers (pending_lines finished)) (markers (pending_lines next))
          (markers (map message es)))
    ∙ ap (λ x. x ++ markers (map message es)) (coalesce-markers e.timestamp (message e) o)
    ∙ append_assoc (markers (pending_lines o)) (markers (message e ∷ [])) (markers (map message es))
    ∙ ap (λ x. markers (pending_lines o) ++ x)
        (sym (filter-append starts_oops (message e ∷ []) (map message es)))
    ∙ sym (filter-append starts_oops (pending_lines o) (map message (e ∷ es)))
