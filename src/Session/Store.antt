-- ===== src/Session/Store.antt =====
-- crates/blankres-session/src/store.rs: where pending reports lie. Of each user's directory, which only that
-- user and root can open, the model has the files by their names; JSON is a parameter, and so is whether the
-- disk can be written. Ownership, modes and the order of a directory's entries are those of the system.
pub mod Names
pub mod Listed
use blankres.Prelude.{
  ℕ, ◌==◌, Bool, true, false, not, ◌&&◌, Option, none, some, List, [], ◌∷◌, ◌++◌, leb,
  if◌then◌else◌,
}
use blankres.Collect.Paths.{join_name}
use blankres.Report.Payload.{PendingUpload, file_name, get_or_zero}
use blankres.Session.{PendingEntry}
use blankres.Text.{Text, codes, text_eq, after_last}
use blankres.Text.Bytes.{Bytes}
use blankres.Text.Numbers.{to_decimal}
use blankres.TextMap.{TextMap, lookup, insert, remove}

abbrev pub Directory : Type 0
Directory = TextMap Bytes

-- The crash directory: that of each user.
abbrev pub CrashDir : Type 0
CrashDir = ℕ → Directory

unfoldable pub user_dir : Text → ℕ → Text
unfolding to_decimal join_name
user_dir crash_dir uid = join_name crash_dir (to_decimal uid)

unfoldable pub declined_path : Text → ℕ → Text
unfolding user_dir join_name
declined_path crash_dir uid = join_name (user_dir crash_dir uid) (codes "declined.json")

-- What stands before the last dot; all where there is none.
unfoldable pub stem : Text → Text
unfolding after_last
stem [] = []
stem (c ∷ s) = elim (after_last b'.' (c ∷ s)) [
  | none ↦ c ∷ s
  | some e ↦ elim (after_last b'.' s) [ none ↦ [] | some f ↦ c ∷ stem s ]
]

abbrev pub temp_of : Text → Text
temp_of name = stem name ++ codes ".tmp"

abbrev pub set_directory : ℕ → Directory → CrashDir → CrashDir
set_directory uid d dirs other = if other == uid then d else dirs other

-- The file is written under a temporary name and renamed.
abbrev pub rename_over : Text → Bytes → Directory → Directory
rename_over name bytes d = insert name bytes (remove (temp_of name) (insert (temp_of name) bytes d))

abbrev pub written : ℕ → Option Text → Option Bytes → CrashDir → Option Text × CrashDir
written uid none bytes dirs = (none, dirs)
written uid (some name) none dirs = (none, dirs)
written uid (some name) (some bytes) dirs =
    (some name, set_directory uid (rename_over name bytes (dirs uid)) dirs)

-- `write_pending`, with the name of the file where it succeeds.
unfoldable pub write_pending :
    (PendingUpload → Option Bytes) → Bool → PendingUpload → CrashDir → Option Text × CrashDir
unfolding file_name insert remove stem
write_pending to_vec writable p dirs =
    if not writable
    then (none, dirs)
    else written (get_or_zero p.report.uid) (file_name p) (to_vec p) dirs

abbrev extension_is : Text → Option Text → Bool
extension_is wanted none = false
extension_is wanted (some e) = text_eq e wanted

-- `path.extension() == Some("report")`; `.report` alone has no extension.
unfoldable pub is_report : Text → Bool
unfolding after_last text_eq
is_report name =
    not (text_eq name (codes ".report")) && extension_is (codes "report") (after_last b'.' name)

module _ (from_slice : Bytes → Option PendingUpload) (crash_dir : Text) (uid : ℕ) where
  abbrev pub push_entry : Text → Option PendingUpload → List PendingEntry → List PendingEntry
  push_entry name none out = out
  push_entry name (some pending) out =
      record { path = join_name (user_dir crash_dir uid) name; pending = pending } ∷ out

  -- The entries that `list` collects.
  unfoldable pub entries : Directory → List PendingEntry
  unfolding is_report user_dir join_name
  entries [] = []
  entries ((name, bytes) ∷ d) =
      let out = entries d in if is_report name then push_entry name (from_slice bytes) out else out

-- `sort_by_key` of the time of writing, the newest first, which is stable.
unfoldable pub insert_newest : PendingEntry → List PendingEntry → List PendingEntry
insert_newest e [] = e ∷ []
insert_newest e (f ∷ fs) =
    let rest = insert_newest e fs in
    if leb f.pending.written_at e.pending.written_at then e ∷ f ∷ fs else f ∷ rest

unfoldable pub newest_first : List PendingEntry → List PendingEntry
unfolding insert_newest
newest_first [] = []
newest_first (e ∷ es) = insert_newest e (newest_first es)

-- `PendingStore::list`
unfoldable pub list : (Bytes → Option PendingUpload) → Text → ℕ → CrashDir → List PendingEntry
unfolding entries newest_first
list from_slice crash_dir uid dirs = newest_first (entries from_slice crash_dir uid (dirs uid))

abbrev entry_at : Text → Option PendingUpload → Option PendingEntry
entry_at path none = none
entry_at path (some pending) = some (record { path = path; pending = pending })

abbrev read_entry : (Bytes → Option PendingUpload) → Text → Option Bytes → Option PendingEntry
read_entry from_slice path none = none
read_entry from_slice path (some bytes) = entry_at path (from_slice bytes)

-- `PendingStore::load`, of a file in the user's directory.
unfoldable pub load :
    (Bytes → Option PendingUpload) → Text → ℕ → Text → CrashDir → Option PendingEntry
unfolding lookup user_dir join_name
load from_slice crash_dir uid name dirs =
    read_entry from_slice (join_name (user_dir crash_dir uid) name) (lookup name (dirs uid))

-- `PendingEntry::program`
unfoldable pub program : PendingEntry → Text
unfolding after_last
program e = elim (after_last b'/' e.pending.report.event.executable) [
  | none ↦ e.pending.report.event.executable
  | some name ↦ name
]
