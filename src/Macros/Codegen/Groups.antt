-- ===== src/Macros/Codegen/Groups.antt =====
-- `regroup_inputs`, `capacity_literal` and `typenum_capacity` of macros/src/codegen/util.rs.
use linux_rtfm.Base.{
  ℕ, zero, suc, ◌*◌, Bool, true, false, Option, none, some, List, [], ◌∷◌, ◌++◌, leb, if◌then◌else◌,
}
use linux_rtfm.Base.Run.{Run, done, panic}
use linux_rtfm.Macros.Ident.{Ident, codes, decimal}

-- A single item stands as it is, any other number of them as a tuple.
pub data Tuple : Type 0 where
  one : Ident → Tuple
  tuple : List Ident → Tuple

pub record Regrouped : Type 0 where
  -- `_0: i32`, …
  pub args : List (Ident × Ident)
  pub tupled : Tuple
  pub untupled : List Ident
  pub ty : Tuple

unfoldable pub input_ident : ℕ → Ident
unfolding decimal
input_ident i = codes "_" ++ decimal i

-- The loop over the inputs, from the i-th one.
unfoldable pub number_inputs : ℕ → List Ident → List (Ident × Ident)
unfolding input_ident
number_inputs i [] = []
number_inputs i (ty ∷ tys) = (input_ident i, ty) ∷ number_inputs (suc i) tys

abbrev names : List (Ident × Ident) → List Ident
names [] = []
names ((i, ty) ∷ args) = i ∷ names args

unfoldable pub regroup_inputs : List Ident → Regrouped
unfolding number_inputs input_ident
regroup_inputs (ty ∷ []) = record {
  args = (input_ident 0, ty) ∷ [];
  tupled = one (input_ident 0);
  untupled = input_ident 0 ∷ [];
  ty = one ty;
}
regroup_inputs tys =
    let args = number_inputs 0 tys in
    record { args = args; tupled = tuple (names args); untupled = names args; ty = tuple tys }

-- `u8::checked_next_power_of_two`: the least power of two from `p` on that is no less, below 256.
unfoldable pub power_from : (fuel p n : ℕ) → Option ℕ
power_from zero p n = none
power_from (suc fuel) p n = let next = power_from fuel (2 * p) n in if leb n p then some p else next

-- `U4` for 4; with `power_of_two`, of the next power of two, if a `u8` holds it.
unfoldable pub typenum_capacity : ℕ → Bool → Run Ident
unfolding power_from decimal
typenum_capacity capacity false = done (codes "U" ++ decimal capacity)
typenum_capacity capacity true = elim (power_from 8 1 capacity) [
  | none ↦ panic
  | some p ↦ done (codes "U" ++ decimal p)
]
