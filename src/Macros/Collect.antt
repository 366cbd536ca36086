-- ===== src/Macros/Collect.antt =====
-- `BTreeSet` and `BTreeMap` as ascending lists, and the lookups of the maps that the macro reads.
pub mod Sorted
pub mod Names
use linux_rtfm.Base.{
  ℕ, Bool, true, false, ◌||◌, Option, none, some, List, [], ◌∷◌, ltb, ◌==◌, if◌then◌else◌,
}
use linux_rtfm.Macros.Ident.{Ident, eq_ident}

module _ {ℓ} {A : Type ℓ} (lt : A → A → Bool) where
  unfoldable pub insert : A → List A → List A
  insert x [] = x ∷ []
  insert x (y ∷ ys) =
      let below = insert x ys in if lt x y then x ∷ y ∷ ys else if lt y x then y ∷ below else y ∷ ys

  -- `collect::<BTreeSet<_>>()`
  unfoldable pub collect_set : List A → List A
  unfolding insert
  collect_set [] = []
  collect_set (x ∷ xs) = insert x (collect_set xs)

abbrev pub Map {ℓ} : Type ℓ → Type ℓ
Map V = List (ℕ × V)

module _ {ℓ} {V : Type ℓ} where
  unfoldable pub get : ℕ → Map V → Option V
  get k [] = none
  get k ((j, v) ∷ m) = if j == k then some v else get k m

  unfoldable pub insert_map : ℕ → V → Map V → Map V
  insert_map k v [] = (k, v) ∷ []
  insert_map k v ((j, w) ∷ m) =
      let below = insert_map k v m in
      if ltb k j then (k, v) ∷ (j, w) ∷ m else if ltb j k then (j, w) ∷ below else (k, v) ∷ m

  -- `collect::<BTreeMap<_, _>>()` into a map that holds `m`: a later entry replaces an earlier one.
  unfoldable pub collect_map : Map V → List (ℕ × V) → Map V
  unfolding insert_map
  collect_map m [] = m
  collect_map m ((k, v) ∷ xs) = collect_map (insert_map k v m) xs

  -- Lookup by name.
  unfoldable pub find : Ident → List (Ident × V) → Option V
  unfolding eq_ident
  find k [] = none
  find k ((j, v) ∷ m) = if eq_ident j k then some v else find k m

unfoldable pub elem : ℕ → List ℕ → Bool
elem x [] = false
elem x (y ∷ ys) = y == x || elem x ys

unfoldable pub elem_ident : Ident → List Ident → Bool
unfolding eq_ident
elem_ident x [] = false
elem_ident x (y ∷ ys) = eq_ident y x || elem_ident x ys
