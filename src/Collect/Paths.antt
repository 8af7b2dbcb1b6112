-- ===== src/Collect/Paths.antt =====
-- The operations of Rust's `Path` on Unix that crates/blankres-collect/src/pkg.rs uses: two paths are equal,
-- and in order, as their components are.
use blankres.Prelude.{
  ℕ, Bool, true, false, not, ◌&&◌, ◌||◌, Option, none, some, List, [], ◌∷◌, ◌++◌, reverse, filter,
  ltb, ◌==◌, if◌then◌else◌,
}
use blankres.Text.{Text, codes, text_eq, text_le, is_empty, starts_with, split}

-- The pieces that are components wherever they stand.
abbrev is_component : Text → Bool
is_component w = not (is_empty w) && not (text_eq w (codes "."))

-- A `.` is a component at the front alone.
abbrev relative_components : List Text → List Text
relative_components [] = []
relative_components (w ∷ ws) =
    if text_eq w (codes ".") then w ∷ filter is_component ws else filter is_component (w ∷ ws)

-- `Path::components`, the root as `/`.
unfoldable pub components : Text → List Text
unfolding split starts_with is_empty text_eq
components path =
    let pieces = split (λ c. c == b'/') path in
    if starts_with (codes "/") path
    then codes "/" ∷ filter is_component pieces
    else relative_components pieces

unfoldable pub components_eq : List Text → List Text → Bool
unfolding text_eq
components_eq [] [] = true
components_eq (a ∷ s) (b ∷ t) = text_eq a b && components_eq s t
components_eq _ _ = false

unfoldable pub same_path : Text → Text → Bool
unfolding components components_eq
same_path a b = components_eq (components a) (components b)

-- The order of the kinds: the root, `.`, `..`, and names.
unfoldable pub rank : Text → ℕ
unfolding text_eq
rank w =
    if text_eq w (codes "/")
    then 0
    else if text_eq w (codes ".")
    then 1
    else if text_eq w (codes "..")
    then 2
    else 3

unfoldable pub component_le : Text → Text → Bool
unfolding rank text_le
component_le a b = ltb (rank a) (rank b) || (rank a == rank b && text_le a b)

unfoldable pub components_le : List Text → List Text → Bool
unfolding component_le text_eq
components_le [] t = true
components_le (a ∷ s) [] = false
components_le (a ∷ s) (b ∷ t) = if text_eq a b then components_le s t else component_le a b

unfoldable pub path_le : Text → Text → Bool
unfolding components components_le
path_le a b = components_le (components a) (components b)

abbrev last_of : List Text → Option Text
last_of [] = none
last_of (w ∷ []) =
    if text_eq w (codes "/") || text_eq w (codes ".") || text_eq w (codes "..")
    then none
    else some w
last_of (w ∷ v ∷ ws) = last_of (v ∷ ws)

-- `Path::file_name`
unfoldable pub file_name : Text → Option Text
unfolding components text_eq
file_name path = last_of (components path)

-- `Path::join`, for a name with no `/` in front.
abbrev ends_in_separator : Text → Bool
ends_in_separator s = starts_with (codes "/") (reverse s)

unfoldable pub join_name : Text → Text → Text
unfolding is_empty starts_with
join_name dir name =
    if is_empty dir || ends_in_separator dir then dir ++ name else dir ++ b'/' ∷ name

-- A `HashMap<PathBuf, V>`, the keys equal as paths; nothing iterates over it.
module _ {ℓ} {V : Type ℓ} where
  unfoldable pub path_lookup : Text → List (Text × V) → Option V
  path_lookup path [] = none
  path_lookup path ((key, v) ∷ m) = if same_path key path then some v else path_lookup path m

  unfoldable pub path_insert : Text → V → List (Text × V) → List (Text × V)
  path_insert path v [] = (path, v) ∷ []
  path_insert path v ((key, w) ∷ m) =
      let rest = path_insert path v m in
      if same_path key path then (key, v) ∷ m else (key, w) ∷ rest
