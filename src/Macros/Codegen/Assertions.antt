-- ===== src/Macros/Codegen/Assertions.antt =====
-- macros/src/codegen/assertions.rs: the checks that what goes from core to core may go there. They
-- stand before the other statements of `main` and do nothing when they run.
use mathlib.Core.List.{Memᴰ}
use mathlib.Core.List.Memᴰ
use linux_rtfm.Base.{ℕ, ◌↔◌, sym, ap, subst, List, [], ◌∷◌, ◌++◌, map, collect, inl, inr}
use linux_rtfm.Base.Members.{mem-collect, mem-collect_inv, mem-map_inv}
use linux_rtfm.Macros.Ident.{Ident}
use linux_rtfm.Macros.Collect.{Map}
use linux_rtfm.Macros.Syntax.{Parent}
use linux_rtfm.Macros.Codegen.Boot.{values}

-- A statement `rtfm::export::assert_send::<ty>();`, or that for `Sync`.
pub data Assertion : Type 0 where
  assert_send : (ty : Ident) → Assertion
  assert_sync : (ty : Ident) → Assertion

abbrev type_of : Assertion → Ident
type_of (assert_send ty) = ty
type_of (assert_sync ty) = ty

-- `collect::<HashSet<_>>()` and its iteration, of the standard library, are parameters, one for each
-- set: the order of a hash set differs from one to the next.
unfoldable pub assertions : (send_set sync_set : List Ident → List Ident) → Parent → List Assertion
assertions send_set sync_set analysis =
    map assert_send (send_set (collect (λ tys. tys) (values analysis.send_types)))
    ++ map assert_sync (sync_set (collect (λ tys. tys) (values analysis.sync_types)))

-- A hash set has the members that were collected.
abbrev pub HasMembers : (List Ident → List Ident) → Type 0
HasMembers set = (xs : List Ident) (x : Ident) → Memᴰ x (set xs) ↔ Memᴰ x xs

-- A type that some core has in its list.
abbrev pub Listed : Map (List Ident) → Ident → Type 0
Listed m ty = (core : ℕ) × (tys : List Ident) × Memᴰ (core, tys) m × Memᴰ ty tys

mem-values :
    (m : Map (List Ident)) (tys : List Ident)
    → Memᴰ tys (values m)
    → (core : ℕ) × Memᴰ (core, tys) m
mem-values [] tys h = elim h [ ]
mem-values ((core, l) ∷ m) tys (Memᴰ.head e) = (core, Memᴰ.head (ap (λ t. (core, t)) e))
mem-values ((core, l) ∷ m) tys (Memᴰ.tail h) =
    let (c, inside) = mem-values m tys h in (c, Memᴰ.tail inside)

values-mem :
    (m : Map (List Ident)) (core : ℕ) (tys : List Ident) → Memᴰ (core, tys) m → Memᴰ tys (values m)
values-mem [] core tys h = elim h [ ]
values-mem ((c, l) ∷ m) core tys (Memᴰ.head e) = Memᴰ.head (ap (λ (p : ℕ × List Ident). p.1) e)
values-mem ((c, l) ∷ m) core tys (Memᴰ.tail h) = Memᴰ.tail (values-mem m core tys h)

collected-Listed :
    (set : List Ident → List Ident) (m : Map (List Ident)) (ty : Ident)
    → HasMembers set
    → Memᴰ ty (set (collect (λ tys. tys) (values m))) ↔ Listed m ty
collected-Listed set m ty law = (
  λ h.
      let (tys, inside, of) =
        mem-collect_inv (λ tys. tys) (values m) ((law (collect (λ tys. tys) (values m)) ty).0 h) in
      let (core, at) = mem-values m tys inside in (core, tys, at, of),
  λ (core, tys, at, of).
      (law (collect (λ tys. tys) (values m)) ty).1
        (mem-collect (λ tys. tys) (values-mem m core tys at) of),
)

abbrev IsSend : Assertion → Type 0
IsSend (assert_send ty) = Unit
IsSend (assert_sync ty) = ⊥

-- For hash sets that have just the members that were collected: the statements assert that a type
-- is `Send` exactly if some core's list of types that are sent has it, and that a type is `Sync`
-- exactly if some core's list of types that are shared has it.
pub assertions-Listed :
    (send_set sync_set : List Ident → List Ident) (analysis : Parent) (ty : Ident)
    → HasMembers send_set
    → HasMembers sync_set
    → (Memᴰ (assert_send ty) (assertions send_set sync_set analysis)
        ↔ Listed analysis.send_types ty)
      × (Memᴰ (assert_sync ty) (assertions send_set sync_set analysis)
          ↔ Listed analysis.sync_types ty)
unfolding assertions
assertions-Listed send_set sync_set analysis ty send_law sync_law =
    let sends = send_set (collect (λ tys. tys) (values analysis.send_types)) in
    let syncs = sync_set (collect (λ tys. tys) (values analysis.sync_types)) in
    let send = collected-Listed send_set analysis.send_types ty send_law in
    let sync = collected-Listed sync_set analysis.sync_types ty sync_law in
    (
      (
        λ m. elim (Memᴰ.append_cases (map assert_send sends) m) [
          | inl w ↦
              let (t, inside, e) = mem-map_inv assert_send sends w in
              send.0 (subst (λ t. Memᴰ t sends) (sym (ap type_of e)) inside)
          | inr w ↦
              let (t, inside, e) = mem-map_inv assert_sync syncs w in elim (subst IsSend e tt) [ ]
        ],
        λ l. Memᴰ.append_left (map assert_sync syncs) (Memᴰ.map assert_send (send.1 l)),
      ),
      (
        λ m. elim (Memᴰ.append_cases (map assert_send sends) m) [
          | inl w ↦
              let (t, inside, e) = mem-map_inv assert_send sends w in
              elim (subst IsSend (sym e) tt) [ ]
          | inr w ↦
              let (t, inside, e) = mem-map_inv assert_sync syncs w in
              sync.0 (subst (λ t. Memᴰ t syncs) (sym (ap type_of e)) inside)
        ],
        λ l. Memᴰ.append_right (map assert_send sends) (Memᴰ.map assert_sync (sync.1 l)),
      ),
    )
