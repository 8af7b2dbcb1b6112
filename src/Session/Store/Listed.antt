-- ===== src/Session/Store/Listed.antt =====
-- A pending report of crates/blankres-session/src/store.rs from its writing to the list that the user sees.
use blankres.Prelude.{
  ℕ, ◌==◌, Bool, true, false, ◌&&◌, ◌||◌, Option, some, List, [], ◌∷◌, any, leb, ◌≡◌, ◌∙◌, refl, ap,
  arith, inl, inr, Option-cases, Bool-cases,
}
use blankres.Collect.Paths.{join_name}
use blankres.Report.Payload.{PendingUpload, file_name, get_or_zero}
use blankres.Session.{PendingEntry}
use blankres.Session.Store.Names.{file_name-is_report}
use blankres.Session.Store.{
  Directory, CrashDir, set_directory, user_dir, rename_over, temp_of, write_pending, is_report,
  entries, insert_newest, newest_first, list, load,
}
use blankres.Text.{Text, text_eq}
use blankres.Text.Bytes.{Bytes}
use blankres.Text.Equality.{text_eq_iff, text_eq_refl}
use blankres.TextMap.{lookup, insert, remove}
use blankres.TextMap.Laws.{lookup-insert}

-- The entries are in the order of the list: each was written no earlier than the next.
abbrev pub is_newest_first : List PendingEntry → Bool
is_newest_first [] = true
is_newest_first (e ∷ []) = true
is_newest_first (e ∷ f ∷ es) =
    leb f.pending.written_at e.pending.written_at && is_newest_first (f ∷ es)

insert-is_newest_first :
    (e : PendingEntry) (fs : List PendingEntry)
    → is_newest_first fs ≡ true
    → is_newest_first (insert_newest e fs) ≡ true
unfolding insert_newest
insert-is_newest_first e [] h = refl
insert-is_newest_first e (f ∷ []) h = ground arith
insert-is_newest_first e (f ∷ g ∷ fs) h = ground (arith, insert-is_newest_first e (g ∷ fs))

newest_first-is_newest_first : (es : List PendingEntry) → is_newest_first (newest_first es) ≡ true
unfolding newest_first
newest_first-is_newest_first [] = refl
newest_first-is_newest_first (e ∷ es) =
    insert-is_newest_first e (newest_first es) (newest_first-is_newest_first es)

any-insert :
    (p : PendingEntry → Bool) (e : PendingEntry) (fs : List PendingEntry)
    → any p (insert_newest e fs) ≡ (p e || any p fs)
unfolding insert_newest
any-insert p e [] = refl
any-insert p e (f ∷ fs) = ground (arith, any-insert p e fs)

any-newest_first :
    (p : PendingEntry → Bool) (es : List PendingEntry) → any p (newest_first es) ≡ any p es
unfolding newest_first
any-newest_first p [] = refl
any-newest_first p (e ∷ es) =
    any-insert p e (newest_first es) ∙ ap (λ x. p e || x) (any-newest_first p es)

or-true : (b : Bool) → (b || true) ≡ true
or-true b = ground arith

module _ (to_vec : PendingUpload → Option Bytes) (from_slice : Bytes → Option PendingUpload)
    (crash_dir : Text) where
  -- What the list shows of a file.
  abbrev pub entry_of : ℕ → Text → PendingUpload → PendingEntry
  entry_of uid name p = record { path = join_name (user_dir crash_dir uid) name; pending = p }

  entries-lookup :
      (uid : ℕ) (d : Directory) (name : Text) (bytes : Bytes) (p : PendingUpload)
      (q : PendingEntry → Bool)
      → lookup name d ≡ some bytes
      → from_slice bytes ≡ some p
      → is_report name ≡ true
      → q (entry_of uid name p) ≡ true
      → any q (entries from_slice crash_dir uid d) ≡ true
  unfolding entries lookup
  entries-lookup uid [] name bytes p q e f r h = ground (arith, e)
  entries-lookup uid ((key, b) ∷ d) name bytes p q e f r h = elim (Bool-cases (text_eq key name)) [
    | inl same ↦
        let kn : key ≡ name = (text_eq_iff key name).0 same in
        let bb : b ≡ bytes = ground (arith, e, same) in rw (kn, bb, r, f, h) refl
    | inr other ↦
        let deeper : lookup name d ≡ some bytes = ground (arith, e, other) in
        let found = entries-lookup uid d name bytes p q deeper f r h in
        elim (Bool-cases (is_report key)) [
          | inr not_report ↦ rw not_report found
          | inl report ↦ elim (Option-cases (from_slice b)) [
            | inl bad ↦ rw (report, bad) found
            | inr (other_report, good) ↦
                rw (report, good, found) (or-true (q (entry_of uid key other_report)))
          ]
        ]
  ]

  rename_over-lookup :
      (name : Text) (bytes : Bytes) (d : Directory)
      → lookup name (rename_over name bytes d) ≡ some bytes
  rename_over-lookup name bytes d =
      lookup-insert name name bytes (remove (temp_of name) (insert (temp_of name) bytes d))
      ∙ rw (text_eq_refl name) refl

  set_directory-same :
      (uid : ℕ) (d : Directory) (dirs : CrashDir) → set_directory uid d dirs uid ≡ d
  set_directory-same uid d dirs = ground arith

  set_directory-other :
      (uid other : ℕ) (d : Directory) (dirs : CrashDir)
      → (other == uid) ≡ false
      → set_directory uid d dirs other ≡ dirs other
  set_directory-other uid other d dirs h = rw h refl

  write_pending-name :
      (p : PendingUpload) (dirs : CrashDir) (name : Text) (bytes : Bytes)
      → file_name p ≡ some name
      → to_vec p ≡ some bytes
      → write_pending to_vec true p dirs ≡ (
        some name,
        set_directory
            (get_or_zero p.report.uid)
            (rename_over name bytes (dirs (get_or_zero p.report.uid)))
            dirs,
      )
  unfolding write_pending
  write_pending-name p dirs name bytes e f = rw (e, f) refl

  list-any :
      (uid : ℕ) (dirs : CrashDir) (q : PendingEntry → Bool)
      → any q (list from_slice crash_dir uid dirs)
        ≡ any q (entries from_slice crash_dir uid (dirs uid))
  unfolding list
  list-any uid dirs q = any-newest_first q (entries from_slice crash_dir uid (dirs uid))

  list-is_newest_first :
      (uid : ℕ) (dirs : CrashDir) → is_newest_first (list from_slice crash_dir uid dirs) ≡ true
  unfolding list
  list-is_newest_first uid dirs =
      newest_first-is_newest_first (entries from_slice crash_dir uid (dirs uid))

  load-lookup :
      (uid : ℕ) (dirs : CrashDir) (name : Text) (bytes : Bytes) (p : PendingUpload)
      → lookup name (dirs uid) ≡ some bytes
      → from_slice bytes ≡ some p
      → load from_slice crash_dir uid name dirs ≡ some (entry_of uid name p)
  unfolding load
  load-lookup uid dirs name bytes p e f = rw (e, f) refl

  -- A report that could be written under its name, and whose bytes are read back as it, is in the list of its
  -- user with the path it was written to, a list that has the newest first, and is loaded by that name; the
  -- directory of any other user is as it was.
  pub write_pending-list :
      (p : PendingUpload) (dirs : CrashDir) (name : Text) (bytes : Bytes) (q : PendingEntry → Bool)
      (other : ℕ)
      → file_name p ≡ some name
      → to_vec p ≡ some bytes
      → from_slice bytes ≡ some p
      → q (entry_of (get_or_zero p.report.uid) name p) ≡ true
      → (other == get_or_zero p.report.uid) ≡ false
      → let uid = get_or_zero p.report.uid in
        let (path, after) = write_pending to_vec true p dirs in
        (path ≡ some name)
        × (any q (list from_slice crash_dir uid after) ≡ true)
        × (is_newest_first (list from_slice crash_dir uid after) ≡ true)
        × (load from_slice crash_dir uid name after ≡ some (entry_of uid name p))
        × (after other ≡ dirs other)
  write_pending-list p dirs name bytes q other e f g h apart =
      let uid = get_or_zero p.report.uid in
      let d = rename_over name bytes (dirs uid) in
      let after = set_directory uid d dirs in
      let there : lookup name (after uid) ≡ some bytes =
        ap (lookup name) (set_directory-same uid d dirs)
        ∙ rename_over-lookup name bytes (dirs uid) in
      rw (write_pending-name p dirs name bytes e f) (
        refl,
        list-any uid after q
            ∙ entries-lookup uid (after uid) name bytes p q there g (file_name-is_report p e) h,
        list-is_newest_first uid after,
        load-lookup uid after name bytes p there g,
        set_directory-other uid other d dirs apart,
      )
