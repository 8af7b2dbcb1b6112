-- ===== src/TextMap/Laws.antt =====
-- The laws of the maps: `insert` and `remove` by what `lookup` shows.
use blankres.Prelude.{
  none, some, true, false, List, [], ◌∷◌, ◌++◌, ◌≡◌, refl, sym, subst, arith, inl, inr,
  if◌then◌else◌, Bool-cases,
}
use blankres.Text.{Text, text_eq, text_le}
use blankres.Text.Equality.{text_eq_iff, text_le_total, text_le_trans, text_le_antisymm}
use blankres.TextMap.{TextMap, lookup, insert, remove, collect_onto, AllAbove, IsSorted}

module _ {ℓ} {V : Type ℓ} where
  pub lookup-insert :
      (k j : Text) (v : V) (m : TextMap V)
      → lookup j (insert k v m) ≡ (if text_eq k j then some v else lookup j m)
  unfolding lookup insert
  lookup-insert k j v [] = refl
  lookup-insert k j v ((i, w) ∷ m) =
      ground (arith, lookup-insert k j v m, text_eq_iff k i, text_eq_iff i j, text_eq_iff k j)

  pub lookup-remove :
      (k j : Text) (m : TextMap V)
      → lookup j (remove k m) ≡ (if text_eq k j then none else lookup j m)
  unfolding lookup remove
  lookup-remove k j [] = ground arith
  lookup-remove k j ((i, w) ∷ m) = ground (
    arith,
    lookup-remove k j m,
    text_eq_iff k i,
    text_eq_iff i j,
    text_eq_iff k j,
    text_eq_iff i k,
  )

  pub lookup-AllAbove : (k : Text) (m : TextMap V) → AllAbove k m → lookup k m ≡ none
  unfolding lookup
  lookup-AllAbove k [] h = refl
  lookup-AllAbove k ((j, w) ∷ m) h =
      ground (arith, lookup-AllAbove k m h.1, text_eq_iff j k, text_le_total k k)

  AllAbove-trans : (k j : Text) (m : TextMap V) → text_le k j ≡ true → AllAbove j m → AllAbove k m
  AllAbove-trans k j [] h a = tt
  AllAbove-trans k j ((i, w) ∷ m) h a =
      (ground (arith, text_le_trans i k j), AllAbove-trans k j m h a.1)

  AllAbove-insert :
      (j k : Text) (v : V) (m : TextMap V)
      → text_le k j ≡ false
      → AllAbove j m
      → AllAbove j (insert k v m)
  unfolding insert
  AllAbove-insert j k v [] h a = (h, tt)
  AllAbove-insert j k v ((i, w) ∷ m) h a = ground (arith, AllAbove-insert j k v m h a.1)

  pub insert-IsSorted : (k : Text) (v : V) (m : TextMap V) → IsSorted m → IsSorted (insert k v m)
  unfolding insert
  insert-IsSorted k v [] h = (tt, tt)
  insert-IsSorted k v ((j, w) ∷ m) h = elim (Bool-cases (text_eq k j)) [
    | inl same ↦ rw same (subst (λ x. AllAbove x m) (sym ((text_eq_iff k j).0 same)) h.0, h.1)
    | inr other ↦ elim (Bool-cases (text_le k j)) [
      | inl below ↦
          rw (other, below)
            (
              (
                ground (arith, text_le_antisymm k j, text_eq_iff k j),
                AllAbove-trans k j m below h.0,
              ),
              h,
            )
      | inr above ↦ rw (other, above) (AllAbove-insert j k v m above h.0, insert-IsSorted k v m h.1)
    ]
  ]

  pub collect_onto-IsSorted :
      (m : TextMap V) (l : List (Text × V)) → IsSorted m → IsSorted (collect_onto m l)
  unfolding collect_onto
  collect_onto-IsSorted m [] h = h
  collect_onto-IsSorted m ((k, v) ∷ l) h =
      collect_onto-IsSorted (insert k v m) l (insert-IsSorted k v m h)

  AllAbove-middle :
      (j k : Text) (v : V) (m rest : TextMap V)
      → AllAbove j (m ++ (k, v) ∷ rest)
      → text_le k j ≡ false
  AllAbove-middle j k v [] rest h = h.0
  AllAbove-middle j k v ((i, w) ∷ m) rest h = AllAbove-middle j k v m rest h.1

  AllAbove-drop :
      (j k : Text) (v : V) (m rest : TextMap V)
      → AllAbove j (m ++ (k, v) ∷ rest)
      → AllAbove j (m ++ rest)
  AllAbove-drop j k v [] rest h = h.1
  AllAbove-drop j k v ((i, w) ∷ m) rest h = (h.0, AllAbove-drop j k v m rest h.1)

  -- A key above all others goes to the end.
  pub insert-concat :
      (k : Text) (v : V) (m rest : TextMap V)
      → IsSorted (m ++ (k, v) ∷ rest)
      → insert k v m ≡ m ++ (k, v) ∷ []
  unfolding insert
  insert-concat k v [] rest h = refl
  insert-concat k v ((j, w) ∷ m) rest h =
      let above = AllAbove-middle j k v m rest h.0 in
      ground (arith, insert-concat k v m rest h.1, above, text_eq_iff k j, text_le_total k k)

  pub IsSorted-middle :
      (k : Text) (v : V) (m rest : TextMap V) → IsSorted (m ++ (k, v) ∷ rest) → IsSorted (m ++ rest)
  IsSorted-middle k v [] rest h = h.1
  IsSorted-middle k v ((j, w) ∷ m) rest h =
      (AllAbove-drop j k v m rest h.0, IsSorted-middle k v m rest h.1)
