-- ===== src/Collect/DpkgIndex.antt =====
-- The index of crates/blankres-collect/src/pkg.rs over dpkg's file lists, and its reading of dpkg's status.
use blankres.Prelude.{
  ℕ, ◌==◌, Bool, false, not, ◌||◌, Option, none, some, List, [], ◌∷◌, length, reverse,
  if◌then◌else◌,
}
use blankres.Collect.Interfaces.{IoResult, Filesystem}
use blankres.Collect.Paths.{file_name, path_lookup, path_insert}
use blankres.Text.{
  Text, codes, text_eq, is_empty, strip_prefix, split, split_whitespace, lines, trim,
}
use blankres.TextMap.{TextMap, insert}

abbrev pub dpkg_info_dir : Text
dpkg_info_dir = codes "/var/lib/dpkg/info"

abbrev pub dpkg_status : Text
dpkg_status = codes "/var/lib/dpkg/status"

pub record Index : Type 0 where
  pub paths : List (Text × Text)
  pub built_from_status_mtime : ℕ

abbrev reversed : Option Text → Option Text
reversed none = none
reversed (some s) = some (reverse s)

unfoldable pub strip_suffix : Text → Text → Option Text
unfolding strip_prefix
strip_suffix p s = reversed (strip_prefix (reverse p) (reverse s))

abbrev first_piece : List Text → Text
first_piece [] = []
first_piece (w ∷ ws) = w

abbrev bare_package : Option Text → Option Text
bare_package none = none
bare_package (some stem) = some (first_piece (split (λ c. c == b':') stem))

abbrev package_named : Option Text → Option Text
package_named none = none
package_named (some name) = bare_package (strip_suffix (codes ".list") name)

-- The package whose list an entry of the directory is: `foo:amd64.list` is that of `foo`.
unfoldable pub list_package : Text → Option Text
unfolding file_name strip_suffix split
list_package entry = package_named (file_name entry)

unfoldable pub add_paths : Text → List Text → List (Text × Text) → List (Text × Text)
unfolding trim is_empty text_eq path_insert
add_paths name [] m = m
add_paths name (raw ∷ rest) m =
    let line = trim raw in
    add_paths name rest
      (if is_empty line || text_eq line (codes "/.") then m else path_insert line name m)

abbrev pub add_list : Option Text → IoResult Text → List (Text × Text) → List (Text × Text)
add_list none list m = m
add_list (some name) (IoResult.err e) m = m
add_list (some name) (IoResult.ok list) m = add_paths name (lines list) m

unfoldable pub add_entries : Filesystem → List Text → List (Text × Text) → List (Text × Text)
unfolding list_package add_paths lines
add_entries fs [] m = m
add_entries fs (entry ∷ rest) m =
    add_entries fs rest (add_list (list_package entry) (fs.read_to_string entry) m)

abbrev pub unwrap_or : {A : Type 0} → A → IoResult A → A
unwrap_or a (IoResult.ok b) = b
unwrap_or a (IoResult.err e) = a

-- `DpkgIndex::build`
unfoldable pub build : Filesystem → Text → Text → Index
unfolding add_entries
build fs info_dir status = record {
  paths = add_entries fs (unwrap_or [] (fs.list_dir info_dir)) [];
  built_from_status_mtime = unwrap_or 0 (fs.modified_secs status);
}

abbrev pub build_default : Filesystem → Index
build_default fs = build fs dpkg_info_dir dpkg_status

abbrev pub differs : ℕ → IoResult ℕ → Bool
differs built (IoResult.ok mtime) = not (mtime == built)
differs built (IoResult.err e) = false

-- `DpkgIndex::is_stale`
unfoldable pub is_stale : Index → Filesystem → Text → Bool
is_stale index fs status = differs index.built_from_status_mtime (fs.modified_secs status)

-- `DpkgIndex::len` and `package_of`
abbrev pub len : Index → ℕ
len index = length index.paths

unfoldable pub package_of : Index → Text → Option Text
unfolding path_lookup
package_of index path = path_lookup path index.paths

abbrev pub Versions : Type 0
Versions = TextMap (Option Text × Option Text)

-- The variables of the loop of `parse_status`.
pub record Stanza : Type 0 where
  pub name : Option Text
  pub version : Option Text
  pub source : Option Text
  pub out : Versions

abbrev flushed : Option Text → Stanza → Versions
flushed none s = s.out
flushed (some name) s = insert name (s.version, s.source) s.out

-- The closure `flush`.
unfoldable pub flush : Stanza → Stanza
unfolding insert
flush s = record { name = none; version = none; source = none; out = flushed s.name s }

abbrev first_or : Text → List Text → Text
first_or value [] = value
first_or value (w ∷ ws) = w

abbrev pub with_source : Stanza → Option Text → Stanza
with_source s none = s
with_source s (some value) = record s {
  source = some (trim (first_or value (split_whitespace value)));
}

abbrev pub with_version : Text → Stanza → Option Text → Stanza
with_version line s (some value) = record s { version = some (trim value) }
with_version line s none = with_source s (strip_prefix (codes "Source: ") line)

abbrev pub with_package : Text → Stanza → Option Text → Stanza
with_package line s (some value) = record s { name = some (trim value) }
with_package line s none = with_version line s (strip_prefix (codes "Version: ") line)

unfoldable pub status_line : Stanza → Text → Stanza
unfolding trim is_empty flush strip_prefix split_whitespace
status_line s line =
    if is_empty (trim line)
    then flush s
    else with_package line s (strip_prefix (codes "Package: ") line)

unfoldable pub status_lines : Stanza → List Text → Versions
unfolding status_line flush
status_lines s [] = (flush s).out
status_lines s (line ∷ rest) = status_lines (status_line s line) rest

abbrev pub empty_stanza : Stanza
empty_stanza = record { name = none; version = none; source = none; out = [] }

abbrev status_of : IoResult Text → Versions
status_of (IoResult.err e) = []
status_of (IoResult.ok content) = status_lines empty_stanza (lines content)

unfoldable pub parse_status : Filesystem → Text → Versions
unfolding lines status_lines
parse_status fs status = status_of (fs.read_to_string status)
