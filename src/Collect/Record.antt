-- ===== src/Collect/Record.antt =====
-- crates/blankres-collect/src/record.rs: the crash as it arrives from the journal.
use blankres.Prelude.{
  ℕ, Bool, not, ◌&&◌, ◌||◌, Option, none, some, List, [], ◌∷◌, ◌++◌, reverse, any, if◌then◌else◌,
}
use blankres.Text.{Text, codes, text_eq, starts_with, split_whitespace, lines, trim}
use blankres.Text.Numbers.{parse_u32}
use blankres.TextMap.{TextMap, lookup}

pub record CoredumpRecord : Type 0 where
  pub fields : TextMap Text
  pub message : Text
  pub timestamp : ℕ
  pub cursor : Text

unfoldable pub field : CoredumpRecord → Text → Option Text
unfolding lookup
field r name = lookup name r.fields

abbrev pub executable : CoredumpRecord → Option Text
executable r = field r (codes "EXE")

abbrev pub core_path : CoredumpRecord → Option Text
core_path r = field r (codes "FILENAME")

abbrev pub command_line : CoredumpRecord → Option Text
command_line r = field r (codes "CMDLINE")

abbrev pub environ : CoredumpRecord → Option Text
environ r = field r (codes "ENVIRON")

abbrev pub proc_maps : CoredumpRecord → Option Text
proc_maps r = field r (codes "PROC_MAPS")

abbrev pub proc_status : CoredumpRecord → Option Text
proc_status r = field r (codes "PROC_STATUS")

abbrev parse_trimmed : Option Text → Option ℕ
parse_trimmed none = none
parse_trimmed (some t) = parse_u32 (trim t)

-- `uid`, and `pid` in the same way.
unfoldable pub uid : CoredumpRecord → Option ℕ
unfolding field parse_u32 trim
uid r = parse_trimmed (field r (codes "UID"))

abbrev first_word : List Text → Option ℕ
first_word [] = none
first_word (w ∷ ws) = parse_u32 w

abbrev parse_first : Option Text → Option ℕ
parse_first none = none
parse_first (some t) = first_word (split_whitespace t)

unfoldable pub signal : CoredumpRecord → Option ℕ
unfolding field parse_u32 split_whitespace
signal r = parse_first (field r (codes "SIGNAL"))

-- `path.ends_with(p)`
abbrev ends_with : Text → Text → Bool
ends_with p s = starts_with (reverse p) (reverse s)

abbrev sixth : List Text → Option Text
sixth (a ∷ b ∷ c ∷ d ∷ e ∷ f ∷ rest) = some f
sixth _ = none

-- The tests on the path of a mapping.
unfoldable pub is_package_file : Text → Bool
unfolding starts_with
is_package_file path =
    starts_with (codes "/") path
    && not (
        starts_with (codes "/dev/") path
        || starts_with (codes "/memfd:") path
        || starts_with (codes "/proc/") path
        || ends_with (codes "(deleted)") path)

abbrev add_mapped : List Text → Option Text → List Text
add_mapped seen none = seen
add_mapped seen (some path) =
    if is_package_file path && not (any (λ p. text_eq p path) seen) then seen ++ path ∷ [] else seen

unfoldable pub mapped_from : List Text → List Text → List Text
unfolding split_whitespace is_package_file text_eq
mapped_from seen [] = seen
mapped_from seen (line ∷ rest) = mapped_from (add_mapped seen (sixth (split_whitespace line))) rest

abbrev mapped_with : Option Text → List Text
mapped_with none = []
mapped_with (some maps) = mapped_from [] (lines maps)

unfoldable pub mapped_files : CoredumpRecord → List Text
unfolding field lines mapped_from
mapped_files r = mapped_with (proc_maps r)
