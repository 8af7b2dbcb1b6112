-- ===== src/Collect/Package/Sorted.antt =====
-- The sorting by path of crates/blankres-collect/src/pkg.rs.
use blankres.Prelude.{Bool, true, ◌&&◌, ◌||◌, List, [], ◌∷◌, any, ◌≡◌, ◌∙◌, refl, ap, arith}
use blankres.Collect.Paths.{component_le, components_le, path_le, components}
use blankres.Collect.Package.{insert_by_path, sort_by_path}
use blankres.Report.Payload.{ModifiedFile}
use blankres.Text.{Text}
use blankres.Text.Equality.{text_eq_iff, text_le_total}

-- The paths ascend, one after the other.
abbrev pub is_ascending : List ModifiedFile → Bool
is_ascending [] = true
is_ascending (f ∷ []) = true
is_ascending (f ∷ g ∷ fs) = path_le f.path g.path && is_ascending (g ∷ fs)

component_le_total : (a b : Text) → (component_le a b || component_le b a) ≡ true
unfolding component_le
component_le_total a b = ground (arith, text_le_total a b)

components_le_total : (s t : List Text) → (components_le s t || components_le t s) ≡ true
unfolding components_le
components_le_total [] t = refl
components_le_total (a ∷ s) [] = refl
components_le_total (a ∷ s) (b ∷ t) =
    ground
      (arith, components_le_total s t, component_le_total a b, text_eq_iff a b, text_eq_iff b a)

path_le_total : (a b : Text) → (path_le a b || path_le b a) ≡ true
unfolding path_le
path_le_total a b = components_le_total (components a) (components b)

insert-is_ascending :
    (f : ModifiedFile) (gs : List ModifiedFile)
    → is_ascending gs ≡ true
    → is_ascending (insert_by_path f gs) ≡ true
unfolding insert_by_path
insert-is_ascending f [] h = refl
insert-is_ascending f (g ∷ []) h = ground (arith, path_le_total f.path g.path)
insert-is_ascending f (g ∷ k ∷ gs) h = ground (
  arith,
  insert-is_ascending f (k ∷ gs),
  path_le_total f.path g.path,
  path_le_total f.path k.path,
)

pub sort-is_ascending : (fs : List ModifiedFile) → is_ascending (sort_by_path fs) ≡ true
unfolding sort_by_path
sort-is_ascending [] = refl
sort-is_ascending (f ∷ fs) = insert-is_ascending f (sort_by_path fs) (sort-is_ascending fs)

any-insert :
    (p : ModifiedFile → Bool) (f : ModifiedFile) (gs : List ModifiedFile)
    → any p (insert_by_path f gs) ≡ (p f || any p gs)
unfolding insert_by_path
any-insert p f [] = refl
any-insert p f (g ∷ gs) = ground (arith, any-insert p f gs)

pub any-sort :
    (p : ModifiedFile → Bool) (fs : List ModifiedFile) → any p (sort_by_path fs) ≡ any p fs
unfolding sort_by_path
any-sort p [] = refl
any-sort p (f ∷ fs) = any-insert p f (sort_by_path fs) ∙ ap (λ x. p f || x) (any-sort p fs)
