-- ===== src/Macros/Examples/Asserted.antt =====
-- The assertions of an application (macros/src/codegen/assertions.rs).
use mathlib.Core.List.{Memᴰ}
use linux_rtfm.Base.{◌≡◌, ◌↔◌, sym, subst, Bool, true, false, List, [], ◌∷◌, if◌then◌else◌, refl}
use linux_rtfm.Macros.Ident.{Ident}
use linux_rtfm.Macros.Collect.{elem_ident}
use linux_rtfm.Macros.Collect.Names.{Memᴰ-elem_ident}
use linux_rtfm.Macros.Syntax.{Parent}
use linux_rtfm.Macros.Codegen.Assertions.{
  assertions, assert_send, assert_sync, HasMembers, Listed, assertions-Listed,
}
use linux_rtfm.Macros.Examples.{parent}

-- A hash set: each member once, in the order of the last copies.
abbrev add : Ident → List Ident → List Ident
add x set = if elem_ident x set then set else x ∷ set

abbrev once : List Ident → List Ident
once [] = []
once (x ∷ xs) = add x (once xs)

add-mem : (x y : Ident) (set : List Ident) → Memᴰ y (add x set) ↔ Memᴰ y (x ∷ set)
add-mem x y set = go (elem_ident x set) refl
  where
    go : (b : Bool) → elem_ident x set ≡ b → Memᴰ y (if b then set else x ∷ set) ↔ Memᴰ y (x ∷ set)
    go true e = (
      λ m. Memᴰ.tail m,
      λ m. elim m [
        | Memᴰ.head h ↦ subst (λ z. Memᴰ z set) (sym h) (Memᴰ-elem_ident x set e)
        | Memᴰ.tail d ↦ d
      ],
    )
    go false e = (λ m. m, λ m. m)

once-HasMembers : HasMembers once
once-HasMembers [] y = (λ m. m, λ m. m)
once-HasMembers (x ∷ xs) y =
    let step = add-mem x y (once xs) in
    let rest = once-HasMembers xs y in
    (
      λ m. elim (step.0 m) [ Memᴰ.head h ↦ Memᴰ.head h | Memᴰ.tail d ↦ Memᴰ.tail (rest.0 d) ],
      λ m. elim m [
        | Memᴰ.head h ↦ step.1 (Memᴰ.head h)
        | Memᴰ.tail d ↦ step.1 (Memᴰ.tail (rest.1 d))
      ],
    )

-- Both cores send one type, core 1 another too; core 1 shares a third.
abbrev sending : Parent
sending = record parent {
  send_types = (0, (117 ∷ []) ∷ []) ∷ (1, (117 ∷ []) ∷ (105 ∷ []) ∷ []) ∷ [];
  sync_types = (1, (98 ∷ []) ∷ []) ∷ [];
}

assertions-Listed_example :
    (Memᴰ (assert_send (105 ∷ [])) (assertions once once sending)
      ↔ Listed sending.send_types (105 ∷ []))
    × (Memᴰ (assert_sync (105 ∷ [])) (assertions once once sending)
        ↔ Listed sending.sync_types (105 ∷ []))
assertions-Listed_example =
    assertions-Listed once once sending (105 ∷ []) once-HasMembers once-HasMembers
