-- ===== src/Collect/Package.antt =====
-- crates/blankres-collect/src/pkg.rs: whose package a file is, and whether it is what the package installed.
-- MD5 with its hexadecimal print is a parameter, and so is the order in which a `HashMap` is walked.
pub mod Sorted
pub mod Verify
use blankres.Prelude.{
  ℕ, ◌==◌, Bool, true, false, not, ◌&&◌, ◌||◌, Option, none, some, List, [], ◌∷◌, ◌++◌, length,
  reverse, if◌then◌else◌,
}
use blankres.Collect.DpkgIndex.{
  Index, Versions, dpkg_info_dir, dpkg_status, build_default, package_of, parse_status,
}
use blankres.Collect.Interfaces.{IoResult, Filesystem, PackageBackend}
use blankres.Collect.Paths.{file_name, join_name, path_le, path_lookup, path_insert}
use blankres.Report.Event.{PackageInfo}
use blankres.Report.Payload.{ModifiedFile}
use blankres.Text.{
  Text, codes, text_eq, is_empty, strip_prefix, split, split_whitespace, lines, trim,
}
use blankres.Text.Bytes.{Bytes}
use blankres.TextMap.{TextMap, lookup, insert}

pub record DpkgBackend : Type 0 where
  pub fs : Filesystem
  pub index : Index
  pub info_dir : Text
  pub versions : Versions

-- `DpkgBackend::new` and `with_defaults`
unfoldable pub new_backend : Filesystem → Index → Text → Text → DpkgBackend
unfolding parse_status
new_backend fs index info_dir status = record {
  fs = fs;
  index = index;
  info_dir = info_dir;
  versions = parse_status fs status;
}

abbrev pub with_defaults : Filesystem → DpkgBackend
with_defaults fs = new_backend fs (build_default fs) dpkg_info_dir dpkg_status

-- `split_once("  ")`
unfoldable pub split_double : Text → Option (Text × Text)
split_double [] = none
split_double (c ∷ []) = none
split_double (c ∷ d ∷ s) = elim (c == b' ' && d == b' ') [
  | true ↦ some ([], s)
  | false ↦ elim (split_double (d ∷ s)) [ none ↦ none | some (a, b) ↦ some (c ∷ a, b) ]
]

abbrev pub add_sum : Option (Text × Text) → List (Text × Text) → List (Text × Text)
add_sum none m = m
add_sum (some (digest, path)) m = path_insert (b'/' ∷ trim path) digest m

unfoldable pub add_sums : List Text → List (Text × Text) → List (Text × Text)
unfolding split_double trim path_insert
add_sums [] m = m
add_sums (line ∷ rest) m = add_sums rest (add_sum (split_double line) m)

abbrev pub sums_second : IoResult Text → List (Text × Text)
sums_second (IoResult.ok content) = add_sums (lines content) []
sums_second (IoResult.err e) = []

abbrev pub sums_first : IoResult Text → IoResult Text → List (Text × Text)
sums_first (IoResult.ok content) second = add_sums (lines content) []
sums_first (IoResult.err e) second = sums_second second

-- `DpkgBackend::md5sums`: the plain name first.
unfoldable pub md5sums : DpkgBackend → Text → List (Text × Text)
unfolding join_name lines add_sums
md5sums b name =
    sums_first (b.fs.read_to_string (join_name b.info_dir (name ++ codes ".md5sums")))
      (b.fs.read_to_string (join_name b.info_dir (name ++ codes ":amd64.md5sums")))

abbrev pub version_or_none : Option (Option Text × Option Text) → Option Text × Option Text
version_or_none none = (none, none)
version_or_none (some v) = v

abbrev pub owner_named : Versions → Option Text → Option PackageInfo
owner_named versions none = none
owner_named versions (some name) =
    let (version, source) = version_or_none (lookup name versions) in
    some (record { name = some name; version = version; source = source })

unfoldable pub owner : DpkgBackend → Text → Option PackageInfo
unfolding package_of lookup
owner b path = owner_named b.versions (package_of b.index path)

-- `entry(package).or_default().push(path)`
abbrev pub Groups : Type 0
Groups = List (Text × List Text)

unfoldable pub push_path : Text → Text → Groups → Groups
unfolding text_eq
push_path name path [] = (name, path ∷ []) ∷ []
push_path name path ((key, ps) ∷ gs) =
    let rest = push_path name path gs in
    if text_eq key name then (key, ps ++ path ∷ []) ∷ gs else (key, ps) ∷ rest

abbrev pub push_owned : Option Text → Text → Groups → Groups
push_owned none path gs = gs
push_owned (some name) path gs = push_path name path gs

unfoldable pub by_package : Index → Groups → List Text → Groups
unfolding package_of push_path
by_package index gs [] = gs
by_package index gs (path ∷ rest) =
    by_package index (push_owned (package_of index path) path gs) rest

-- `sort_by` of the paths, which is stable.
unfoldable pub insert_by_path : ModifiedFile → List ModifiedFile → List ModifiedFile
unfolding path_le
insert_by_path f [] = f ∷ []
insert_by_path f (g ∷ gs) =
    let rest = insert_by_path f gs in if path_le f.path g.path then f ∷ g ∷ gs else g ∷ rest

unfoldable pub sort_by_path : List ModifiedFile → List ModifiedFile
unfolding insert_by_path
sort_by_path [] = []
sort_by_path (f ∷ fs) = insert_by_path f (sort_by_path fs)

module _ (md5_hex : Bytes → Text) (order : Groups → Groups) where
  abbrev pub judged : Text → Text → Text → IoResult Bytes → Option ModifiedFile
  judged name path expected (IoResult.err e) = none
  judged name path expected (IoResult.ok bytes) =
      if not (text_eq (md5_hex bytes) expected)
      then some (record { path = path; package_name = name })
      else none

  -- What the inner loop pushes for one path.
  abbrev pub file_modified : Filesystem → Text → Text → Option Text → Option ModifiedFile
  file_modified fs name path none = none
  file_modified fs name path (some expected) = judged name path expected (fs.read_bytes path)

  abbrev pub push_modified : Option ModifiedFile → List ModifiedFile → List ModifiedFile
  push_modified none fs = fs
  push_modified (some f) fs = f ∷ fs

  unfoldable pub group_modified :
      Filesystem → Text → List (Text × Text) → List Text → List ModifiedFile
  unfolding path_lookup text_eq
  group_modified fs name sums [] = []
  group_modified fs name sums (path ∷ rest) =
      push_modified (file_modified fs name path (path_lookup path sums))
        (group_modified fs name sums rest)

  abbrev pub group_with : Filesystem → Text → List (Text × Text) → List Text → List ModifiedFile
  group_with fs name [] paths = []
  group_with fs name (sum ∷ sums) paths = group_modified fs name (sum ∷ sums) paths

  unfoldable pub groups_modified : DpkgBackend → Groups → List ModifiedFile
  unfolding group_modified md5sums
  groups_modified b [] = []
  groups_modified b ((name, paths) ∷ rest) =
      group_with b.fs name (md5sums b name) paths ++ groups_modified b rest

  unfoldable pub verify : DpkgBackend → List Text → List ModifiedFile
  unfolding by_package groups_modified sort_by_path
  verify b paths = sort_by_path (groups_modified b (order (by_package b.index [] paths)))

  -- The implementation of the interface that the collectors use.
  abbrev pub dpkg_backend : DpkgBackend → PackageBackend
  dpkg_backend b = record { owner = owner b; verify = verify b }
