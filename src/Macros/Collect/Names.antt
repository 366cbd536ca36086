-- ===== src/Macros/Collect/Names.antt =====
-- Membership of a name in a list (the `contains` and `insert` of macros/src/codegen/spawn.rs and
-- schedule.rs).
use mathlib.Core.List.{Memᴰ}
use linux_rtfm.Base.{
  ◌≡◌, refl, sym, subst, ap₂, Bool, true, false, ◌&&◌, List, [], ◌∷◌, ◌==◌, arith, Bool-cases, inl,
  inr,
}
use linux_rtfm.Macros.Ident.{Ident, eq_ident}
use linux_rtfm.Macros.Collect.{elem_ident}

both : (a b : Bool) → (a && b) ≡ true → (a ≡ true) × (b ≡ true)
both true b h = (refl, h)
both false b h = cc

pub eq_ident-eq : (xs ys : Ident) → eq_ident xs ys ≡ true → xs ≡ ys
unfolding eq_ident
eq_ident-eq [] [] h = refl
eq_ident-eq [] (y ∷ ys) h = cc
eq_ident-eq (x ∷ xs) [] h = cc
eq_ident-eq (x ∷ xs) (y ∷ ys) h =
    let (same, rest) = both (x == y) (eq_ident xs ys) h in
    ap₂ (λ z zs. z ∷ zs) (let e : x ≡ y = ground arith in e) (eq_ident-eq xs ys rest)

pub eq_ident_refl : (xs : Ident) → eq_ident xs xs ≡ true
unfolding eq_ident
eq_ident_refl [] = refl
eq_ident_refl (x ∷ xs) = ground (arith, eq_ident_refl xs)

pub Memᴰ-elem_ident : (x : Ident) (xs : List Ident) → elem_ident x xs ≡ true → Memᴰ x xs
unfolding elem_ident
Memᴰ-elem_ident x [] h = cc
Memᴰ-elem_ident x (y ∷ ys) h = elim (Bool-cases (eq_ident y x)) [
  | inl same ↦ Memᴰ.head (sym (eq_ident-eq y x same))
  | inr other ↦ Memᴰ.tail (Memᴰ-elem_ident x ys (rw other at h))
]

pub elem_ident_mem : (x : Ident) (xs : List Ident) → Memᴰ x xs → elem_ident x xs ≡ true
unfolding elem_ident
elem_ident_mem x [] m = elim m [ ]
elem_ident_mem x (y ∷ ys) (Memᴰ.head e) =
    let same : eq_ident y x ≡ true = subst (λ z. eq_ident y z ≡ true) (sym e) (eq_ident_refl y) in
    ground arith
elem_ident_mem x (y ∷ ys) (Memᴰ.tail m) = let rest = elem_ident_mem x ys m in ground arith
