-- ===== src/TextMap.antt =====
-- `BTreeMap<String, V>` as an association list in the order of its keys. A `HashMap<String, V>`
-- is the same list where the program does not iterate over it.
pub mod Laws
use blankres.Prelude.{false, Option, none, some, List, [], ◌∷◌, ◌≡◌, if◌then◌else◌}
use blankres.Text.{Text, text_eq, text_le}

abbrev pub TextMap {ℓ} : Type ℓ → Type ℓ
TextMap V = List (Text × V)

module _ {ℓ} {V : Type ℓ} where
  unfoldable pub lookup : Text → TextMap V → Option V
  lookup k [] = none
  lookup k ((j, v) ∷ m) = if text_eq j k then some v else lookup k m

  unfoldable pub insert : Text → V → TextMap V → TextMap V
  insert k v [] = (k, v) ∷ []
  insert k v ((j, w) ∷ m) =
      let rest = insert k v m in
      if text_eq k j then (k, v) ∷ m else if text_le k j then (k, v) ∷ (j, w) ∷ m else (j, w) ∷ rest

  unfoldable pub remove : Text → TextMap V → TextMap V
  remove k [] = []
  remove k ((j, w) ∷ m) = let rest = remove k m in if text_eq j k then rest else (j, w) ∷ rest

  -- `collect()`: a later entry replaces an earlier one.
  unfoldable pub collect_onto : TextMap V → List (Text × V) → TextMap V
  collect_onto m [] = m
  collect_onto m ((k, v) ∷ rest) = collect_onto (insert k v m) rest

  -- The keys ascend strictly: the invariant of `BTreeMap`.
  abbrev pub AllAbove : Text → TextMap V → Type 0
  AllAbove k [] = Unit
  AllAbove k ((j, v) ∷ m) = (text_le j k ≡ false) × AllAbove k m

  abbrev pub IsSorted : TextMap V → Type 0
  IsSorted [] = Unit
  IsSorted ((k, v) ∷ m) = AllAbove k m × IsSorted m
